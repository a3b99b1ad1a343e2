-- ===== src/Cache.antt =====
-- include/srpc/common/cache: values kept for use again. simple.h is the cache, and shared.h the
-- same cache behind a shared pointer, whose members pass on to it. `std::queue` is the list of its
-- elements from the front. The value traits' `create` is an argument of `get`: the value that it
-- makes; what `destroy` is called on is a result. Each operation holds `cache_lock_` throughout.
pub mod Laws
pub mod Tests
use dep_srpc.Base.{
  ℕ, Bool, true, false, ◌&&◌, ltb, if◌then◌else◌, List, [], ◌∷◌, ◌++◌, length, Option, none, some,
}

pub record Simple {ℓ} (A : Type ℓ) : Type ℓ where
  pub maximum : ℕ
  pub cache : List A

-- `shared`, with its member `impl_`.
pub record Shared {ℓ} (A : Type ℓ) : Type ℓ where
  pub impl : Simple A

-- What users do with a cache: `gets` with the value that would be created.
pub data Op {ℓ} (A : Type ℓ) : Type ℓ where
  gets pushes : A → Op A
  clears : Op A

module _ {ℓ} {A : Type ℓ} where
  unfoldable pub new_simple : ℕ → Simple A
  new_simple maximum = record { maximum = maximum; cache = [] }

  -- The values destroyed, from the front, and the cache.
  unfoldable pub clear_unsafe : List A → List A × List A
  clear_unsafe [] = ([], [])
  clear_unsafe (x ∷ xs) = let (destroyed, left) = clear_unsafe xs in (x ∷ destroyed, left)

  unfoldable pub clear : Simple A → List A × Simple A
  clear c = let (destroyed, left) = clear_unsafe c.cache in (destroyed, record c { cache = left })

  -- The value, whether it comes from the cache, and the cache.
  unfoldable pub get : A → Simple A → A × Bool × Simple A
  get created c = elim c.cache [
    | [] ↦ (created, false, c)
    | n ∷ rest ↦ (n, true, record c { cache = rest })
  ]

  unfoldable pub push : A → Simple A → Simple A
  push val c =
      if ltb 0 c.maximum && ltb (length c.cache) c.maximum
      then record c { cache = c.cache ++ val ∷ [] }
      else c

  unfoldable pub size : Simple A → ℕ
  size c = length c.cache

  -- `shared::create`, whose maximum is 0 when none is given, and the members that pass on.
  unfoldable pub create_shared : Option ℕ → Shared A
  create_shared none = record { impl = new_simple 0 }
  create_shared (some maximum) = record { impl = new_simple maximum }

  unfoldable pub shared_clear : Shared A → List A × Shared A
  shared_clear c = let (destroyed, impl) = clear c.impl in (destroyed, record { impl = impl })

  unfoldable pub shared_get : A → Shared A → A × Bool × Shared A
  shared_get created c =
      let (n, reused, impl) = get created c.impl in (n, reused, record { impl = impl })

  unfoldable pub shared_push : A → Shared A → Shared A
  shared_push val c = record { impl = push val c.impl }

  unfoldable pub shared_size : Shared A → ℕ
  shared_size c = size c.impl

  -- One operation: what leaves the cache, what enters it, and the cache.
  unfoldable pub step : Op A → Simple A → List A × List A × Simple A
  step (gets created) c =
      let (n, reused, c1) = get created c in (if reused then n ∷ [] else [], [], c1)
  step (pushes val) c =
      let c1 = push val c in ([], if ltb (size c) (size c1) then val ∷ [] else [], c1)
  step clears c = let (destroyed, c1) = clear c in (destroyed, [], c1)

  unfoldable pub run : List (Op A) → Simple A → List A × List A × Simple A
  run [] c = ([], [], c)
  run (op ∷ ops) c =
      let (out, entered, c1) = step op c in
      let (outs, all_entered, c2) = run ops c1 in (out ++ outs, entered ++ all_entered, c2)

  -- The same histories of a shared cache.
  unfoldable pub shared_step : Op A → Shared A → List A × List A × Shared A
  shared_step (gets created) c =
      let (n, reused, c1) = shared_get created c in (if reused then n ∷ [] else [], [], c1)
  shared_step (pushes val) c =
      let c1 = shared_push val c in
      ([], if ltb (shared_size c) (shared_size c1) then val ∷ [] else [], c1)
  shared_step clears c = let (destroyed, c1) = shared_clear c in (destroyed, [], c1)

  unfoldable pub shared_run : List (Op A) → Shared A → List A × List A × Shared A
  shared_run [] c = ([], [], c)
  shared_run (op ∷ ops) c =
      let (out, entered, c1) = shared_step op c in
      let (outs, all_entered, c2) = shared_run ops c1 in (out ++ outs, entered ++ all_entered, c2)
