-- ===== src/Examples/Cached.antt =====
-- A cache that keeps the last entry only, and keys that can be compared.
use gridpulse.Prelude.{
  ℕ, ◌+◌, ◌<◌, ◌≤◌, ◌≡◌, ◌⊎◌, inl, refl, sym, ap₂, ap, String, Bool, true, false, Option, none,
  some, Result, ok, raise, Exc, key_error, ok-injective, ok-ne-raise, ◌&&◌, ◌==◌, ltb, lt→ltb,
  ltb→lt, &&-true, ==_iff, str_eq, eq_iff,
}
use gridpulse.Datetime.{DateTime, Offset, ahead, behind}
use gridpulse.Api.Cache.{TtlCache}

pub record Keys (K : Type 0) : Type 0 where
  pub same : K → K → Bool
  pub same_eq : (k l : K) → same k l ≡ true → k ≡ l
  pub same_refl : (k : K) → same k k ≡ true

module _ {K V : Type 0} (keys : Keys K) (ttl : ℕ) where
  abbrev pub holds : Option (K × V × ℕ) → ℕ → K → Bool
  holds none t l = false
  holds (some (k, v, s)) t l = keys.same k l && ltb t (s + ttl)

  abbrev pub value_of : Bool → V → Result V
  value_of true v = ok v
  value_of false v = raise key_error

  abbrev pub getitem : Option (K × V × ℕ) → ℕ → K → Result V
  getitem none t l = raise key_error
  getitem (some (k, v, s)) t l = value_of (keys.same k l && ltb t (s + ttl)) v

  pub contains_holds :
      (c : Option (K × V × ℕ)) (t : ℕ) (k : K)
      → holds c t k ≡ true
      → (v : V) × (getitem c t k ≡ ok v)
  contains_holds none t k h = cc
  contains_holds (some (k, v, s)) t l h = (v, rw h refl)

  value_raises : (b : Bool) (v : V) (e : Exc) → value_of b v ≡ raise e → e ≡ key_error
  value_raises true v e h = absurd (ok-ne-raise h)
  value_raises false v e h = cc

  pub getitem_raises :
      (c : Option (K × V × ℕ)) (t : ℕ) (k : K) (e : Exc) → getitem c t k ≡ raise e → e ≡ key_error
  getitem_raises none t k e h = cc
  getitem_raises (some (k, v, s)) t l e h = value_raises (keys.same k l && ltb t (s + ttl)) v e h

  pub setitem_holds :
      (c : Option (K × V × ℕ)) (s t : ℕ) (k : K) (v : V)
      → s ≤ t
      → t < s + ttl
      → (holds (some (k, v, s)) t k ≡ true) × (getitem (some (k, v, s)) t k ≡ ok v)
  setitem_holds c s t k v h p = rw (keys.same_refl k, lt→ltb _ _ p) (refl, refl)

  value_ok : (b : Bool) (v w : V) → value_of b v ≡ ok w → (b ≡ true) × (w ≡ v)
  value_ok true v w h = (refl, sym (ok-injective h))
  value_ok false v w h = absurd (ok-ne-raise (sym h))

  pub setitem_brings :
      (c : Option (K × V × ℕ)) (s t : ℕ) (k l : K) (v w : V)
      → getitem (some (k, v, s)) t l ≡ ok w
      → ((l ≡ k) × (w ≡ v) × (t < s + ttl)) ⊎ (getitem c t l ≡ ok w)
  setitem_brings c s t k l v w h =
      let (test, value) = value_ok (keys.same k l && ltb t (s + ttl)) v w h in
      let (key, young) = &&-true _ _ test in
      inl (sym (keys.same_eq k l key), value, ltb→lt _ _ young)

  abbrev pub last_entry : TtlCache K V
  last_entry = record {
    Cache = Option (K × V × ℕ);
    ttl = ttl;
    empty = none;
    contains = holds;
    getitem = getitem;
    setitem = λ c s k v. some (k, v, s);
    contains_holds = contains_holds;
    getitem_raises = getitem_raises;
    empty_misses = λ t k. refl;
    setitem_holds = setitem_holds;
    setitem_brings = setitem_brings;
  }

abbrev pub same_offset : Option Offset → Option Offset → Bool
same_offset none none = true
same_offset (some (ahead a)) (some (ahead b)) = a == b
same_offset (some (behind a)) (some (behind b)) = a == b
same_offset a b = false

same_offset_eq : (a b : Option Offset) → same_offset a b ≡ true → a ≡ b
same_offset_eq none none h = refl
same_offset_eq (some (ahead a)) (some (ahead b)) h = ap (λ n. some (ahead n)) ((==_iff a b).0 h)
same_offset_eq (some (behind a)) (some (behind b)) h = ap (λ n. some (behind n)) ((==_iff a b).0 h)
same_offset_eq none (some b) h = cc
same_offset_eq (some (ahead a)) none h = cc
same_offset_eq (some (behind a)) none h = cc
same_offset_eq (some (ahead a)) (some (behind b)) h = cc
same_offset_eq (some (behind a)) (some (ahead b)) h = cc

same_offset_refl : (a : Option Offset) → same_offset a a ≡ true
same_offset_refl none = refl
same_offset_refl (some (ahead a)) = (==_iff a a).1 refl
same_offset_refl (some (behind a)) = (==_iff a a).1 refl

abbrev pub same_datetime : DateTime → DateTime → Bool
same_datetime a b = a.wall == b.wall && same_offset a.tzinfo b.tzinfo

pub same_datetime_eq : (a b : DateTime) → same_datetime a b ≡ true → a ≡ b
same_datetime_eq a b h =
    let (p, q) = &&-true _ _ h in
    ap₂ (λ w o. record { wall = w; tzinfo = o }) ((==_iff a.wall b.wall).0 p)
      (same_offset_eq a.tzinfo b.tzinfo q)

pub same_datetime_refl : (a : DateTime) → same_datetime a a ≡ true
same_datetime_refl a = rw ((==_iff a.wall a.wall).1 refl, same_offset_refl a.tzinfo) refl

module _ {A : Type 0} (same : A → A → Bool) (same_eq : (a b : A) → same a b ≡ true → a ≡ b)
    (same_refl : (a : A) → same a a ≡ true) where
  pub same_named_eq : (k l : String × A) → (str_eq k.0 l.0 && same k.1 l.1) ≡ true → k ≡ l
  same_named_eq k l h =
      let (p, q) = &&-true _ _ h in ap₂ (λ a b. (a, b)) ((eq_iff k.0 l.0).0 p) (same_eq k.1 l.1 q)

  pub same_named_refl : (k : String × A) → (str_eq k.0 k.0 && same k.1 k.1) ≡ true
  same_named_refl k = rw ((eq_iff k.0 k.0).1 refl, same_refl k.1) refl

  -- keys with the name of a function in front
  abbrev pub named : Keys (String × A)
  named = record {
    same = λ k l. str_eq k.0 l.0 && same k.1 l.1;
    same_eq = same_named_eq;
    same_refl = same_named_refl;
  }

abbrev pub same_range : ℕ × DateTime × DateTime → ℕ × DateTime × DateTime → Bool
same_range a b = a.0 == b.0 && (same_datetime a.1 b.1 && same_datetime a.2 b.2)

pub same_range_eq : (a b : ℕ × DateTime × DateTime) → same_range a b ≡ true → a ≡ b
same_range_eq a b h =
    let (p, q) = &&-true _ _ h in
    let (r, s) = &&-true _ _ q in
    rw ((==_iff a.0 b.0).0 p, same_datetime_eq a.1 b.1 r, same_datetime_eq a.2 b.2 s) refl

pub same_range_refl : (a : ℕ × DateTime × DateTime) → same_range a a ≡ true
same_range_refl a =
    rw ((==_iff a.0 a.0).1 refl, same_datetime_refl a.1, same_datetime_refl a.2) refl
