-- ===== src/Vault/Exec/Keeps.antt =====
-- Rules for what methods keep of the vault's data. Most steps do not touch the data: they test,
-- compute, or write to the disk. What is left is an assignment, and the order of the steps.
use lockrail.Prelude.{◌≡◌, refl, Bool, true, false, Result, ok, err, if◌then◌else◌}
use lockrail.Prelude.Text.{Text}
use lockrail.Protocol.Agent.{AgentPublicDoc}
use lockrail.Vault.Document.{VaultData}
use lockrail.Vault.Error.{VaultError}
use lockrail.Vault.Exec.{
  Failure, Session, Exec, pure, refuse, lift, gets, modify, ◌>>=◌, ◌>>◌, Write, written, failed,
  unsynced, write_file, write_public_agent_doc,
}

-- Steps with no assignment to `self.data`.
pub record Untouched {A : Type 0} (step : Exec A) : Type 0 where
  pub same : (s : Session) → (step s).1.data' ≡ s.data'

pub record Keeps {A : Type 0} (P : VaultData → Type 0) (step : Exec A) : Type 0 where
  pub at : (s : Session) → P s.data' → P (step s).1.data'

pub Untouched-write_file : (w : Write) (bytes : Text) → Untouched (write_file w bytes)
unfolding write_file
Untouched-write_file written bytes = record { same = λ s. refl }
Untouched-write_file failed bytes = record { same = λ s. refl }
Untouched-write_file unsynced bytes = record { same = λ s. refl }

pub Untouched-write_public_agent_doc :
    (w : Write) (public : AgentPublicDoc) → Untouched (write_public_agent_doc w public)
unfolding write_public_agent_doc
Untouched-write_public_agent_doc written public = record { same = λ s. refl }
Untouched-write_public_agent_doc failed public = record { same = λ s. refl }
Untouched-write_public_agent_doc unsynced public = record { same = λ s. refl }

module _ {A : Type 0} (P : VaultData → Type 0) where
  pub untouched_keeps : {step : Exec A} → Untouched step → Keeps P step
  untouched_keeps u = record { at = λ s p. rw (u.same s) p }

module _ {B : Type 0} {P : VaultData → Type 0} where
  pub Keeps-pure : (b : B) → Keeps P (pure b)
  unfolding pure
  Keeps-pure b = untouched_keeps P (record { same = λ s. refl })

  pub Keeps-refuse : (e : VaultError) → Keeps P (refuse {A = B} e)
  unfolding refuse
  Keeps-refuse e = untouched_keeps P (record { same = λ s. refl })

  -- An early return with an error: what follows may use that its test was false.
  pub Keeps-guard :
      (test : Bool) (e : VaultError) (rest : Exec B)
      → (test ≡ false → Keeps P rest)
      → Keeps P (if test then refuse e else rest)
  Keeps-guard true e rest k = Keeps-refuse e
  Keeps-guard false e rest k = k refl

  -- An assignment, and what follows it.
  pub Keeps-assign :
      (f : VaultData → VaultData) (rest : Exec B)
      → ((d : VaultData) → P d → P (f d))
      → Keeps P rest
      → Keeps P (modify f >> rest)
  unfolding ◌>>=◌
  Keeps-assign f rest step k = record { at = λ s p. k.at _ (step s.data' p) }

module _ {A B : Type 0} {P : VaultData → Type 0} where
  -- A `?` on a pure call: what follows may use the call's result.
  pub Keeps-try :
      (r : Result Failure A) (rest : A → Exec B)
      → ((a : A) → r ≡ ok a → Keeps P (rest a))
      → Keeps P (lift r >>= rest)
  unfolding ◌>>=◌
  Keeps-try (err e) rest k = untouched_keeps P (record { same = λ s. refl })
  Keeps-try (ok a) rest k = record { at = (k a refl).at }

  -- A read of the session: what follows may use what holds of the data read.
  pub Keeps-read :
      (look : Session → A) (rest : A → Exec B)
      → ((s : Session) → P s.data' → Keeps P (rest (look s)))
      → Keeps P (gets look >>= rest)
  unfolding ◌>>=◌
  Keeps-read look rest k = record { at = λ s p. (k s p).at s p }

  -- Two calls in a row, the second skipped where the first fails.
  pub Keeps-then :
      (first : Exec A) (rest : A → Exec B)
      → Keeps P first
      → ((a : A) → Keeps P (rest a))
      → Keeps P (first >>= rest)
  unfolding ◌>>=◌ lift
  Keeps-then first rest one two = record {
    at = λ s p. let (r, after) = first s in (Keeps-try r rest (λ a _. two a)).at after (one.at s p);
  }
