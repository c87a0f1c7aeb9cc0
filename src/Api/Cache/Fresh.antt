-- ===== src/Api/Cache/Fresh.antt =====
-- How old an answer from the cache can be.
use gridpulse.Prelude.{
  ℕ, ◌+◌, ◌<◌, ◌≤◌, ◌≡◌, refl, sym, ap, ◌∙◌, String, true, false, List, [], ◌∷◌, ◌++◌, Result, ok,
  raise, Exc, key_error, Exec, if◌then◌else◌, ◌⊎◌, inl, inr, In, Bool-cases, ok-ne-raise,
  ok-injective,
}
use gridpulse.Api.Cache.{TtlCache, Times, State, wrapper, missed}

-- A call of a wrapped function.
pub record Call (W A V : Type 0) : Type 0 where
  pub qualname : String
  pub func : A → Exec W V
  pub args : A
  pub times : Times

-- A value that a wrapped function returned, and when it went into the cache.
pub record Computed (A V : Type 0) : Type 0 where
  pub qualname : String
  pub args : A
  pub value : V
  pub at : ℕ

module _ {A V : Type 0} (lib : TtlCache (String × A) V) where
  -- A value that was computed for this function and these arguments, less than `ttl` before.
  pub record IsFresh (h : List (Computed A V)) (qualname : String) (args : A) (now : ℕ) (v : V)
      : Type 0 where
    pub source : Computed A V
    pub in_past : In source h
    pub same_function : source.qualname ≡ qualname
    pub same_args : source.args ≡ args
    pub same_value : source.value ≡ v
    pub recent : now < source.at + lib.ttl

  abbrev IsBacked : List (Computed A V) → lib.Cache → Type 0
  IsBacked h c =
      (now : ℕ) (qualname : String) (args : A) (v : V)
      → lib.getitem c now (qualname, args) ≡ ok v
      → IsFresh h qualname args now v

  IsFresh-older :
      (x : Computed A V) (h : List (Computed A V)) (qualname : String) (args : A) (now : ℕ) (v : V)
      → IsFresh h qualname args now v
      → IsFresh (x ∷ h) qualname args now v
  IsFresh-older x h qualname args now v f = record {
    source = f.source;
    in_past = inr f.in_past;
    same_function = f.same_function;
    same_args = f.same_args;
    same_value = f.same_value;
    recent = f.recent;
  }

  raises-contains :
      (c : lib.Cache) (t : ℕ) (k : String × A) (x : Exc)
      → lib.getitem c t k ≡ raise x
      → lib.contains c t k ≡ false
  raises-contains c t k x e = elim (Bool-cases (lib.contains c t k)) [
    | inl here ↦ absurd (ok-ne-raise (sym (lib.contains_holds c t k here).1 ∙ e))
    | inr gone ↦ gone
  ]

  setitem-IsBacked :
      (h : List (Computed A V)) (c : lib.Cache) (qualname : String) (args : A) (at : ℕ) (v : V)
      → IsBacked h c
      → IsBacked
          (record { qualname = qualname; args = args; value = v; at = at } ∷ h)
          (lib.setitem c at (qualname, args) v)
  setitem-IsBacked h c qualname args at v b now q a w e =
      elim (lib.setitem_brings c at now (qualname, args) (q, a) v w e) [
        | inl same ↦
            let (key, value, young) = same in
            record {
              source = record { qualname = qualname; args = args; value = v; at = at };
              in_past = inl refl;
              same_function = sym (ap (λ k. k.0) key);
              same_args = sym (ap (λ k. k.1) key);
              same_value = sym value;
              recent = young;
            }
        | inr old ↦ IsFresh-older _ h q a now w (b now q a w old)
      ]

module _ {W A V : Type 0} (lib : TtlCache (String × A) V) where
  abbrev pub serve : Call W A V → Exec (State W lib.Cache) V
  serve c s = wrapper lib c.qualname c.func c.times c.args s

  abbrev pub kept : Call W A V → Result V → List (Computed A V)
  kept c (ok v) =
      record { qualname = c.qualname; args = c.args; value = v; at = c.times.stored } ∷ []
  kept c (raise e) = []

  -- What a call computes: the value its function returns, when the function runs and returns.
  abbrev pub computes : Call W A V → State W lib.Cache → List (Computed A V)
  computes c s =
      if lib.contains s.cache c.times.looked (c.qualname, c.args)
      then []
      else kept c (c.func c.args s.world).0

  -- The states that calls reach from an empty cache, with all that they computed.
  pub data Reaches : List (Computed A V) → State W lib.Cache → Type 0 where
    begins : (w : W) → Reaches [] (record { world = w; cache = lib.empty })
    called :
        (h : List (Computed A V)) (s : State W lib.Cache) (c : Call W A V)
        → Reaches h s
        → Reaches (computes c s ++ h) (serve c s).1

  serve-IsBacked :
      (h : List (Computed A V)) (s : State W lib.Cache) (c : Call W A V)
      → IsBacked lib h s.cache
      → IsBacked lib (computes c s ++ h) (serve c s).1.cache
  unfolding wrapper
  serve-IsBacked h s c b =
      elim (Bool-cases (lib.contains s.cache c.times.looked (c.qualname, c.args))) [
        | inl hit ↦ rw hit b
        | inr miss ↦ rw miss (go (c.func c.args s.world) refl)
      ]
    where
      go :
          (r : Result V × W)
          → c.func c.args s.world ≡ r
          → IsBacked lib
              (kept c r.0 ++ h)
              (missed lib c.qualname c.args c.times.stored r s.cache).1.cache
      go (ok v, w) e = setitem-IsBacked lib h s.cache c.qualname c.args c.times.stored v b
      go (raise x, w) e = b

  backed : (h : List (Computed A V)) (s : State W lib.Cache) → Reaches h s → IsBacked lib h s.cache
  backed h s (begins w) = λ now q a v e. absurd (ok-ne-raise (sym e ∙ lib.empty_misses now (q, a)))
  backed h s (called k t c r) = serve-IsBacked k t c (backed k t r)

  missed_outcome :
      (qualname : String) (args : A) (now : ℕ) (m : Result V × W) (c : lib.Cache)
      → ((missed lib qualname args now m c).0 ≡ m.0)
        × ((missed lib qualname args now m c).1.world ≡ m.1)
  missed_outcome qualname args now (ok v, w) c = (refl, refl)
  missed_outcome qualname args now (raise e, w) c = (refl, refl)

  -- In a state that calls reach, a call ends in one of three ways: the cache does not have its key,
  -- so that its function runs, and the function's outcome is the reply; or the function does not
  -- run, and the reply is a value that it returned earlier for the same arguments, stored less than
  -- the cache's time to live before; or the function does not run and the reply is KeyError, where
  -- the entry was there at the first look and gone at the second.
  pub wrapper_replies :
      (h : List (Computed A V)) (s : State W lib.Cache) (c : Call W A V)
      → Reaches h s
      → ((lib.contains s.cache c.times.looked (c.qualname, c.args) ≡ false)
          × ((wrapper lib c.qualname c.func c.times c.args s).0 ≡ (c.func c.args s.world).0)
          × ((wrapper lib c.qualname c.func c.times c.args s).1.world ≡ (c.func c.args s.world).1))
        ⊎ (((wrapper lib c.qualname c.func c.times c.args s).1 ≡ s)
            × (((v : V) × ((wrapper lib c.qualname c.func c.times c.args s).0 ≡ ok v)
                  × IsFresh lib h c.qualname c.args c.times.read v)
                ⊎ (((wrapper lib c.qualname c.func c.times c.args s).0 ≡ raise key_error)
                    × (lib.contains s.cache c.times.looked (c.qualname, c.args) ≡ true)
                    × (lib.contains s.cache c.times.read (c.qualname, c.args) ≡ false))))
  unfolding wrapper
  wrapper_replies h s c r =
      elim (Bool-cases (lib.contains s.cache c.times.looked (c.qualname, c.args))) [
        | inl hit ↦
            rw hit (inr (refl, go (lib.getitem s.cache c.times.read (c.qualname, c.args)) refl))
        | inr miss ↦ rw miss (
            let (same, world) =
              missed_outcome c.qualname c.args c.times.stored (c.func c.args s.world) s.cache in
            inl (refl, same, world))
      ]
    where
      go :
          (m : Result V)
          → lib.getitem s.cache c.times.read (c.qualname, c.args) ≡ m
          → ((v : V) × (m ≡ ok v) × IsFresh lib h c.qualname c.args c.times.read v)
            ⊎ ((m ≡ raise key_error)
                × (true ≡ true)
                × (lib.contains s.cache c.times.read (c.qualname, c.args) ≡ false))
      go (ok v) e = inl (v, refl, backed h s r c.times.read c.qualname c.args v e)
      go (raise x) e = inr (
        ap raise (lib.getitem_raises s.cache c.times.read (c.qualname, c.args) x e),
        refl,
        raises-contains lib s.cache c.times.read (c.qualname, c.args) x e,
      )

  -- Where a call does not find its key and its function returns a value, that value is the reply
  -- to the next call of the same name with the same arguments, without another run, as long as
  -- both its looks at the cache come no earlier than the store and less than the time to live
  -- after it.
  pub wrapper_caches :
      (s : State W lib.Cache) (qualname : String) (func again : A → Exec W V) (args : A)
      (first next : Times)
      → lib.contains s.cache first.looked (qualname, args) ≡ false
      → (v : V) → (func args s.world).0 ≡ ok v
      → first.stored ≤ next.looked
      → next.looked < first.stored + lib.ttl
      → first.stored ≤ next.read
      → next.read < first.stored + lib.ttl
      → wrapper lib qualname again next args (wrapper lib qualname func first args s).1
        ≡ (ok v, (wrapper lib qualname func first args s).1)
  unfolding wrapper
  wrapper_caches s qualname func again args first next miss v e l l' t t' =
      rw miss (go (func args s.world) e)
    where
      go :
          (m : Result V × W)
          → m.0 ≡ ok v
          → wrapper lib qualname again next args (missed lib qualname args first.stored m s.cache).1
            ≡ (ok v, (missed lib qualname args first.stored m s.cache).1)
      go (ok u, w) h =
          let (there, value) =
            lib.setitem_holds s.cache first.stored next.looked (qualname, args) u l l' in
          let (there', value') =
            lib.setitem_holds s.cache first.stored next.read (qualname, args) u t t' in
          rw (there, value', ok-injective h) refl
      go (raise x, w) h = absurd (ok-ne-raise (sym h))
