-- ===== src/SizePack/Policy.antt =====
-- The static interface of a size policy, and what a delegate relies on.
use dep_srpc.Base.{ℕ, ◌≤◌, ◌<◌, ◌≡◌, List, ◌++◌, length, Bool, ◌&&◌, leb}

-- The members that `transport::delegates` and `protocol::binary` call. A string or an iterator
-- range is the list of its byte values. `limit` is the first value that `size_type` cannot hold.
pub record Policy : Type 0 where
  pub min_length : ℕ
  pub max_length : ℕ
  pub limit : ℕ
  pub size_length : List ℕ → ℕ
  pub packed_length : ℕ → ℕ
  pub pack : ℕ → List ℕ
  pub unpack : List ℕ → ℕ

-- `valid_length`, the same text in each policy but `none`.
unfoldable pub valid_length : Policy → ℕ → Bool
valid_length p len = leb p.min_length len && leb len p.max_length

-- `valid_packed`.
unfoldable pub valid_packed : Policy → List ℕ → Bool
unfolding valid_length
valid_packed p bytes = valid_length p (p.size_length bytes)

-- A self-delimiting prefix: once the prefix is complete, what follows does not change how it reads.
pub record IsPrefix (p : Policy) : Type 0 where
  pub min_pos : 1 ≤ p.min_length
  pub size_length_le : (bs : List ℕ) → p.size_length bs ≤ length bs
  pub size_length_append :
      (bs more : List ℕ)
      → p.min_length ≤ p.size_length bs
      → p.size_length (bs ++ more) ≡ p.size_length bs
  pub unpack_append :
      (bs more : List ℕ) → p.min_length ≤ p.size_length bs → p.unpack (bs ++ more) ≡ p.unpack bs

-- What was packed is read back, whatever follows it.
pub record IsCodec (p : Policy) : Type 0 where
  pub size_length_pack :
      (v : ℕ) (rest : List ℕ) → v < p.limit → p.size_length (p.pack v ++ rest) ≡ length (p.pack v)
  pub unpack_pack : (v : ℕ) (rest : List ℕ) → v < p.limit → p.unpack (p.pack v ++ rest) ≡ v
  pub length_pack :
      (v : ℕ)
      → v < p.limit
      → (p.min_length ≤ length (p.pack v)) × (length (p.pack v) ≤ p.max_length)
