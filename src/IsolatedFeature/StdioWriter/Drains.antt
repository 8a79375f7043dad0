-- ===== src/IsolatedFeature/StdioWriter/Drains.antt =====
-- kestrel_sdk/isolated_feature/service.py: the worker of `_ThreadedStdioWriter` reports the
-- outcome of each drain once, in the order of the drains.
use kestrel_sovereign_sdk.Prelude.{ℕ, zero, suc, Option, none, some, List, [], ◌∷◌, ◌++◌, ◌≡◌}
use kestrel_sovereign_sdk.IsolatedFeature.StdioWriter.{
  Job, frame, stop, lost, Worker, writing, finished, resolving, broken, failing, Resolution,
  returned, failed, Writer,
}

-- The drains whose outcome was reported to their loop or dropped, in that order.
unfoldable pub settled : List Resolution → List ℕ
settled [] = []
settled (returned c ∷ rs) = c ∷ settled rs
settled (failed c ∷ rs) = c ∷ settled rs
settled (lost c ∷ rs) = c ∷ settled rs

-- The numbers below a bound, in order.
unfoldable pub upto : ℕ → List ℕ
upto zero = []
upto (suc n) = upto n ++ n ∷ []

optional : Option ℕ → List ℕ
optional none = []
optional (some c) = c ∷ []

completions : List Job → List ℕ
unfolding optional
completions [] = []
completions (frame bytes c ∷ jobs) = optional c ++ completions jobs
completions (stop ∷ jobs) = completions jobs

-- The completions that have left `_drains` and are not reported yet.
unfoldable pub held : Worker → List ℕ
held (resolving c) = c ∷ []
held (failing cs) = cs
held _ = []

-- The completion in `_drains` of the frame that the worker has.
owned : Worker → List ℕ
unfolding optional
owned (writing rest c) = optional c
owned (finished c) = c ∷ []
owned (broken c) = optional c
owned _ = []

record Inv (s : Writer) : Type 0 where
  drains_owned : s.drains ≡ owned s.worker ++ completions s.jobs
  in_order : settled s.resolved ++ (held s.worker ++ s.drains) ≡ upto s.created
