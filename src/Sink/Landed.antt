-- ===== src/Sink/Landed.antt =====
-- The outcomes of the batches of internal/sink/batcher.go, where storage takes each batch in the end.
use tickstore.Prelude.{List, ℕ, ◌≡◌}
use tickstore.Sink.{Attempt, Config, Outcome, inserted, outcome}
use tickstore.Sink.Service.{Service}

-- Each `insertWithRetry` ends with an insert that lands.
abbrev pub AllLand : Config → (ℕ → List Attempt) → Type 0
AllLand cfg attempts = (n : ℕ) → outcome cfg (attempts n) ≡ inserted

abbrev pub IsInserted {ℓ} : {A : Type ℓ} → List A × Outcome → Type 0
IsInserted batch = batch.1 ≡ inserted
