-- ===== src/Knnc/Workers.antt =====
-- Arguments of workers and stages (pkg/knnc/stages.go), with their validation. A CancelSignal is
-- shown by whether it was made by NewCancelSignal.
use ddrop.Base.{Bool, [], ◌∷◌, bools_ok}
use ddrop.Base.Int.{ℤ, pos, ltb_ℤ, leb_ℤ}

pub record BaseWorkerArgs : Type 0 where
  pub buf : ℤ
  pub cancel_made : Bool
  pub ttl : ℤ

unfoldable pub worker_ok : BaseWorkerArgs → Bool
worker_ok args = bools_ok (leb_ℤ (pos 0) args.buf ∷ args.cancel_made ∷ ltb_ℤ (pos 0) args.ttl ∷ [])

pub record BaseStageArgs : Type 0 where
  pub n_workers : ℤ
  pub worker : BaseWorkerArgs

unfoldable pub stage_ok : BaseStageArgs → Bool
unfolding worker_ok
stage_ok args = bools_ok (leb_ℤ (pos 1) args.n_workers ∷ worker_ok args.worker ∷ [])
