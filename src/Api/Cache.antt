-- ===== src/Api/Cache.antt =====
-- gridpulse/api/cache.py. cachetools' `TTLCache` is a parameter; the readings of its clock at each of
-- the wrapper's uses of it are arguments.
pub mod Fresh
use gridpulse.Prelude.{
  ℕ, ◌+◌, ◌<◌, ◌≤◌, ◌≡◌, String, Bool, true, false, List, [], ◌∷◌, Result, ok, raise, Exc,
  key_error, Exec, if◌then◌else◌, ◌⊎◌,
}

-- A `TTLCache` with keys `K` and values `V`, at a time on its clock.
pub record TtlCache (K V : Type 0) : Type 1 where
  pub Cache : Type 0
  pub ttl : ℕ
  pub empty : Cache
  pub contains : Cache → ℕ → K → Bool
  pub getitem : Cache → ℕ → K → Result V
  pub setitem : Cache → ℕ → K → V → Cache
  pub contains_holds :
      (c : Cache) (t : ℕ) (k : K) → contains c t k ≡ true → (v : V) × (getitem c t k ≡ ok v)
  pub getitem_raises :
      (c : Cache) (t : ℕ) (k : K) (e : Exc) → getitem c t k ≡ raise e → e ≡ key_error
  pub empty_misses : (t : ℕ) (k : K) → getitem empty t k ≡ raise key_error
  pub setitem_holds :
      (c : Cache) (s t : ℕ) (k : K) (v : V)
      → s ≤ t
      → t < s + ttl
      → (contains (setitem c s k v) t k ≡ true) × (getitem (setitem c s k v) t k ≡ ok v)
  -- an assignment brings in its own value, for `ttl`, and no other
  pub setitem_brings :
      (c : Cache) (s t : ℕ) (k l : K) (v w : V)
      → getitem (setitem c s k v) t l ≡ ok w
      → ((l ≡ k) × (w ≡ v) × (t < s + ttl)) ⊎ (getitem c t l ≡ ok w)

-- The clock as the wrapper's uses of the cache read it: `in`, `[key]`, `[key] = result`.
pub record Times : Type 0 where
  pub looked : ℕ
  pub read : ℕ
  pub stored : ℕ

-- The world that the wrapped functions use, and the cache.
pub record State (W C : Type 0) : Type 0 where
  pub world : W
  pub cache : C

-- `A` is what `_hashable_key` makes of the arguments.
module _ {W A V : Type 0} (lib : TtlCache (String × A) V) where
  abbrev pub missed : String → A → ℕ → Result V × W → lib.Cache → Result V × State W lib.Cache
  missed qualname args now (ok result, w) c =
      (ok result, record { world = w; cache = lib.setitem c now (qualname, args) result })
  missed qualname args now (raise e, w) c = (raise e, record { world = w; cache = c })

  -- `wrapper` of `cache_current` and of `cache_range`
  unfoldable pub wrapper : String → (A → Exec W V) → Times → A → Exec (State W lib.Cache) V
  wrapper qualname func times args s =
      if lib.contains s.cache times.looked (qualname, args)
      then (lib.getitem s.cache times.read (qualname, args), s)
      else missed qualname args times.stored (func args s.world) s.cache

-- `clear_all`: both caches
unfoldable pub clear_all :
    {K V L U : Type 0} (current : TtlCache K V) (range : TtlCache L U)
    → current.Cache × range.Cache
    → current.Cache × range.Cache
clear_all current range s = (current.empty, range.empty)
