-- ===== src/Postcard.antt =====
-- The `postcard` crate, with the serde derivations of a type, as the code uses it: what
-- `to_allocvec` writes, `from_bytes` reads back. `inl` is the text of a failure.
use tine_storage.Base.{◌≡◌, ◌⊎◌, inr, String, Bytes}

pub record Postcard {ℓ} (A : Type ℓ) : Type ℓ where
  pub to_allocvec : A → String ⊎ Bytes
  pub from_bytes : Bytes → String ⊎ A
  pub from_bytes-to_allocvec :
      (a : A) (bytes : Bytes) → to_allocvec a ≡ inr bytes → from_bytes bytes ≡ inr a
