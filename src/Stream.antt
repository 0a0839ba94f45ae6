-- ===== src/Stream.antt =====
-- plonky2x/core/src/utils/stream.rs: a vector with a read position.
pub mod At
use succinctx.Prelude.{
  ℕ, ◌+◌, List, ◌++◌, ltb, length, take, drop, if◌then◌else◌, Outcome, ok, panic,
}

pub record Stream {ℓ} (A : Type ℓ) : Type ℓ where
  pub contents : List A
  pub position : ℕ

module _ {ℓ} {A : Type ℓ} where
  abbrev pub new : List A → Stream A
  new xs = record { contents = xs; position = 0 }

  unfoldable pub read_exact : Stream A → ℕ → Outcome (List A × Stream A)
  read_exact st len =
      if ltb (length st.contents) (st.position + len)
      then panic
      else ok (take len (drop st.position st.contents), record st { position = st.position + len })

  unfoldable pub read_all : Stream A → List A
  read_all st = drop st.position st.contents

  unfoldable pub write_slice : Stream A → List A → Stream A
  write_slice st xs = record st { contents = st.contents ++ xs }
