-- ===== src/Hash/Hasher.antt =====
-- include/srpc/common/hash/interface.h: the virtual interface that `protocol::binary` calls, and
-- what its users rely on.
use dep_srpc.Base.{ℕ, ◌≡◌, List, length, Bool, true}

-- `get` returns the bytes that it writes to `out`; `check` compares them with the bytes at `res`.
pub record Hasher : Type 0 where
  pub length_of : ℕ
  pub get : List ℕ → List ℕ
  pub check : List ℕ → List ℕ → Bool

-- `get` writes `length_of` bytes, and `check` takes these bytes and no others.
pub record IsHasher (h : Hasher) : Type 0 where
  pub length_get : (bs : List ℕ) → length (h.get bs) ≡ h.length_of
  pub check_get : (bs : List ℕ) → h.check bs (h.get bs) ≡ true
  pub get_of_check :
      (bs sum : List ℕ) → length sum ≡ h.length_of → h.check bs sum ≡ true → sum ≡ h.get bs
