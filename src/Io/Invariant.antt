-- ===== src/Io/Invariant.antt =====
-- The builders that sequences of operations reach.
use mathlib.Core.Path.{subst}
use succinctx.Prelude.{
  ◌≡◌, refl, sym, ap, ◌∙◌, ◌⊎◌, inl, inr, true, false, none, some, List, [], ◌++◌, Outcome, ok,
  panic,
}
use succinctx.Io.Schema.{
  CyclicProofIo, bytes, elements, recursive_proofs, cyclic_proof, no_io, Builder, new,
  close_cyclic_io, pre_build, flat_map,
}
use succinctx.Io.Steps.{
  Io, Op, run, run-Extends, Extends, IsOpen, IsPrefix, prefix_refl, prefix_trans, from_ok,
}

module _ (Target Proof Verifier : Type 0) where
  pub data Step : Builder Target Proof Verifier → Builder Target Proof Verifier → Type 0 where
    operate :
        (b : Builder Target Proof Verifier) (op : Op Target Proof) (io' : Io Target Proof Verifier)
        → run op b.io ≡ ok io'
        → Step b (record { io = io'; public_inputs = b.public_inputs })
    close :
        (b b' : Builder Target Proof Verifier) (verifier : Verifier) (targets : List Target)
        → close_cyclic_io verifier targets b ≡ ok b'
        → Step b b'

  pub data Reach : Builder Target Proof Verifier → Type 0 where
    start : Reach new
    next : {b b' : Builder Target Proof Verifier} → Reach b → Step b b' → Reach b'

module _ {Target Proof Verifier : Type 0} where
  -- What a closed schema registered: the inputs and outputs of a schema `io₀` that was reached before,
  -- and the targets of the verifier data. The operations since then have appended to the lists.
  abbrev pub IsClosed : CyclicProofIo Target Proof Verifier → List Target → Type 0
  IsClosed io registered =
      (verifier : Verifier) × (io₀ : CyclicProofIo Target Proof Verifier) × (targets : List Target)
      × (io.verifier_data ≡ some verifier)
      × (registered ≡ io₀.input ++ io₀.output ++ targets)
      × IsPrefix io₀.input io.input
      × IsPrefix io₀.output io.output
      × (io₀.closed ≡ false)
      × Reach Target Proof Verifier (record { io = cyclic_proof io₀; public_inputs = [] })

  abbrev pub IsRegistered : Io Target Proof Verifier → List Target → Type 0
  IsRegistered (cyclic_proof io) registered =
      ((io.closed ≡ false) × (io.verifier_data ≡ none) × (registered ≡ []))
      ⊎ ((io.closed ≡ true) × IsClosed io registered)
  IsRegistered (bytes io) registered = registered ≡ []
  IsRegistered (elements io) registered = registered ≡ []
  IsRegistered (recursive_proofs io) registered = registered ≡ []
  IsRegistered no_io registered = registered ≡ []

  open-IsRegistered :
      (io : Io Target Proof Verifier) (registered : List Target)
      → IsOpen io
      → registered ≡ []
      → IsRegistered io registered
  open-IsRegistered (cyclic_proof io) registered o e = inl (o.0, o.1, e)
  open-IsRegistered (bytes io) registered o e = e
  open-IsRegistered (elements io) registered o e = e
  open-IsRegistered (recursive_proofs io) registered o e = e
  open-IsRegistered no_io registered o e = e

  Extends-IsRegistered :
      (io io' : Io Target Proof Verifier) (registered : List Target)
      → Extends io io'
      → IsRegistered io registered
      → IsRegistered io' registered
  Extends-IsRegistered no_io io' registered x h = open-IsRegistered io' registered x h
  Extends-IsRegistered (bytes io) io' registered x h =
      subst (λ i. IsRegistered i registered) (sym x.1) h
  Extends-IsRegistered (elements io) io' registered x h =
      subst (λ i. IsRegistered i registered) (sym x.1) h
  Extends-IsRegistered (recursive_proofs io) io' registered x h =
      subst (λ i. IsRegistered i registered) (sym x.1) h
  Extends-IsRegistered (cyclic_proof io) io' registered (io₂, e, pi, po, ec, ev) h =
      subst (λ i. IsRegistered i registered) (sym e)
        (elim h [
          | inl (c, v, r) ↦ inl (ec ∙ c, ev ∙ v, r)
          | inr (c, (verifier, io₀, targets, v, r, qi, qo, c₀, before)) ↦ inr (
            ec ∙ c,
            (
              verifier,
              io₀,
              targets,
              ev ∙ v,
              r,
              prefix_trans io₀.input io.input io₂.input qi pi,
              prefix_trans io₀.output io.output io₂.output qo po,
              c₀,
              before,
            ),
          )
        ])

  close-IsRegistered :
      (io : Io Target Proof Verifier) (registered : List Target)
      (b' : Builder Target Proof Verifier) (verifier : Verifier) (targets : List Target)
      → close_cyclic_io verifier targets (record { io = io; public_inputs = registered }) ≡ ok b'
      → Reach Target Proof Verifier (record { io = io; public_inputs = registered })
      → IsRegistered io registered
      → IsRegistered b'.io b'.public_inputs
  unfolding close_cyclic_io
  close-IsRegistered (bytes io) registered b' verifier targets e reached h = absurd (cc e)
  close-IsRegistered (elements io) registered b' verifier targets e reached h = absurd (cc e)
  close-IsRegistered (recursive_proofs io) registered b' verifier targets e reached h =
      absurd (cc e)
  close-IsRegistered no_io registered b' verifier targets e reached h = absurd (cc e)
  close-IsRegistered (cyclic_proof io) registered b' verifier targets e reached (inl (c, v, r)) =
      let e' = rw c at e in
      subst (λ b. IsRegistered b.io b.public_inputs) (from_ok e')
        (inr (
          refl,
          (
            verifier,
            io,
            targets,
            refl,
            ap (λ l. l ++ io.input ++ io.output ++ targets) r,
            prefix_refl io.input,
            prefix_refl io.output,
            c,
            subst
                (λ l.
                  Reach Target Proof Verifier (record { io = cyclic_proof io; public_inputs = l }))
                r reached,
          ),
        ))
  close-IsRegistered (cyclic_proof io) registered b' verifier targets e reached (inr (c, h)) =
      let e' = rw c at e in absurd (cc e')

  Reach-IsRegistered :
      {b : Builder Target Proof Verifier}
      → Reach Target Proof Verifier b
      → IsRegistered b.io b.public_inputs
  Reach-IsRegistered start = refl
  Reach-IsRegistered (next r (operate b op io' e)) =
      Extends-IsRegistered b.io io' b.public_inputs (run-Extends op b.io io' e)
        (Reach-IsRegistered r)
  Reach-IsRegistered (next r (close b b' verifier targets e)) =
      close-IsRegistered b.io b.public_inputs b' verifier targets e r (Reach-IsRegistered r)

  -- The public inputs that a build registers.
  abbrev pub BuildsTo : Io Target Proof Verifier → Outcome (List Target) → Type 0
  BuildsTo (bytes io) out = out ≡ ok (flat_map io.input ++ flat_map io.output)
  BuildsTo (elements io) out = out ≡ ok (io.input ++ io.output)
  BuildsTo (recursive_proofs io) out = out ≡ ok io.output
  BuildsTo no_io out = out ≡ ok []
  BuildsTo (cyclic_proof io) out =
      ((io.closed ≡ false) × (out ≡ panic))
      ⊎ ((registered : List Target) × (out ≡ ok registered) × IsClosed io registered)

  pre_build-value :
      (io : Io Target Proof Verifier) (registered : List Target)
      → IsRegistered io registered
      → BuildsTo io (pre_build (record { io = io; public_inputs = registered }))
  unfolding pre_build
  pre_build-value (bytes io) registered h =
      ap (λ l. ok (l ++ flat_map io.input ++ flat_map io.output)) h
  pre_build-value (elements io) registered h = ap (λ l. ok (l ++ io.input ++ io.output)) h
  pre_build-value (recursive_proofs io) registered h = ap (λ l. ok (l ++ io.output)) h
  pre_build-value no_io registered h = ap ok h
  pre_build-value (cyclic_proof io) registered (inl (c, v, r)) = inl (c, rw c refl)
  pre_build-value (cyclic_proof io) registered (inr (c, h)) = inr (registered, rw c refl, h)

  -- For every builder that operations reach, the public inputs that the build registers: of bytes and
  -- of elements the inputs followed by the outputs, of recursive proofs the outputs. A cyclic schema
  -- that is not closed panics; of a closed one they are the inputs and outputs that it had when it was
  -- closed, followed by the targets of its verifier data, whatever was read and written afterwards.
  pub Reach-BuildsTo :
      {b : Builder Target Proof Verifier}
      → Reach Target Proof Verifier b
      → BuildsTo b.io (pre_build b)
  Reach-BuildsTo {b = b} r = pre_build-value b.io b.public_inputs (Reach-IsRegistered r)
