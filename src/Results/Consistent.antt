-- ===== src/Results/Consistent.antt =====
-- `is_successful` against the class of the status (wire-contracts 1.2): no factory lets a result
-- state another class than its vocabulary status has.
use benzene_python.Prelude.{
  String, Bool, true, false, not, Option, none, some, ◌≡◌, ◌↔◌, ◌⊎◌, arith, text_key,
}
use benzene_python.Results.Status
use benzene_python.Results.Result
use benzene_python.Results.Result.{Result, ProblemDetails, contradicts}

-- The classification that goes on the wire is the status's own, for a status of the vocabulary.
pub record IsConsistent {ℓ} {A : Type ℓ} (r : Result A) : Type 0 where
  pub agrees :
      Status.is_known r.status ≡ true → Result.is_successful r ≡ Status.is_successful r.status

module _ {ℓ} {A : Type ℓ} where
  -- `Result.set` raises exactly when it is given a class other than the status's own for a status
  -- of the vocabulary.
  pub set_raises :
      (s : String) (p : Option A) (b : Option Bool)
      → (Result.set s p b ≡ none)
        ↔ ((Status.is_known s ≡ true) × (b ≡ some (not (Status.is_successful s))))
  unfolding Result.set contradicts
  set_raises s p none = ground arith
  set_raises s p (some b) = ground arith

  -- A result that `Result.set` builds carries the status, the payload and the class given, and its
  -- classification is that of its status if the status is in the vocabulary.
  pub set-IsConsistent :
      (s : String) (p : Option A) (b : Option Bool) (r : Result A)
      → Result.set s p b ≡ some r
      → (r.status ≡ s) × (r.payload ≡ p) × (r.successful ≡ b) × IsConsistent r
  unfolding Result.set contradicts Result.is_successful
  set-IsConsistent s p none r h =
      (ground arith, ground arith, ground arith, record { agrees = λ k. ground arith })
  set-IsConsistent s p (some b) r h =
      (ground arith, ground arith, ground arith, record { agrees = λ k. ground arith })

  -- A result that `Result.problem` builds is a failure with the document's status and errors,
  -- carries the document, and its classification is that of its status if the status is in the
  -- vocabulary.
  pub problem-IsConsistent :
      (d : ProblemDetails) (r : Result A)
      → Result.problem d ≡ some r
      → (r.status ≡ d.benzene_status)
        × (r.errors ≡ d.errors)
        × (r.problem_document ≡ some d)
        × (Result.is_successful r ≡ false)
        × IsConsistent r
  unfolding Result.problem Result.is_successful
  problem-IsConsistent d r h = (
    ground arith,
    ground arith,
    ground arith,
    ground arith,
    record { agrees = λ k. ground arith },
  )

-- `Result.problem` raises exactly on a document with no status or with a success status.
pub problem_raises {ℓ} :
    (A : Type ℓ) (d : ProblemDetails)
    → (Result.problem {A = A} d ≡ none)
      ↔ ((d.benzene_status ≡ "") ⊎ (Status.is_successful d.benzene_status ≡ true))
unfolding Result.problem
problem_raises A d = ground (arith, text_key.same_iff d.benzene_status "")
