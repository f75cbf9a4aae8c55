-- ===== src/Server/Batches.antt =====
-- orchestrator/api/batches.py: the HTTP handlers. Of an answer, the status code and the body's data
-- are kept.
use fleet_lm.Base.{
  ℕ, ◌/◌, String, Option, none, some, List, [], ◌∷◌, map, ltb, leb, ◌==◌, if◌then◌else◌, length,
  lookup, values,
}
use fleet_lm.Config.{Settings, second}
use fleet_lm.Batch.Data.{Batch, BatchStore, Request, BatchState, ResultRecord}
use fleet_lm.Batch.Submit.{create_batch}
use fleet_lm.Batch.Cancel
use fleet_lm.Batch.Status.{Counts, counts, Usage, usage, results}
use fleet_lm.Fleet.Registry.{get_ready_nodes}
use fleet_lm.Server.App.{App}

-- The counts and the usage are `none` for a batch that the store does not know.
pub record BatchStatus : Type 0 where
  pub id : ℕ
  pub status : BatchState
  pub model : Option String
  pub created_at : ℕ
  pub completed_at : Option ℕ
  pub request_counts : Option Counts
  pub usage : Option Usage

-- `int(t) if t else None`, in whole seconds.
unfoldable pub whole_seconds : Option ℕ → Option ℕ
whole_seconds none = none
whole_seconds (some t) = if t == 0 then none else some (t / second)

unfoldable pub batch_status : BatchStore → Batch → BatchStatus
unfolding whole_seconds
batch_status s b = record {
  id = b.id;
  status = b.state;
  model = b.model;
  created_at = b.created_at / second;
  completed_at = whole_seconds b.completed_at;
  request_counts = counts b.id s;
  usage = usage b.id s;
}

pub data Answer (A : Type 0) : Type 0 where
  success : (status : ℕ) (content : A) → Answer A
  failure : (status : ℕ) (code : String) → Answer A

-- `create_batch` of the module: the answer, the nodes that are told of new work, and the store.
pub record Created : Type 0 where
  pub answer : Answer BatchStatus
  pub told : List ℕ
  pub app : App

module _ (settings : Settings) where
  unfoldable pub refuse : String → App → Created
  refuse code app = record { answer = failure 400 code; told = []; app = app }

  unfoldable pub accept : ℕ → ℕ → (ℕ → ℕ) → Option String → List Request → App → Created
  accept now batch_id unit_id model requests app =
      let (batch, store) = create_batch now batch_id unit_id model requests app.batch_store in
      record {
        answer = success 201 (batch_status store batch);
        told = map (λ n. n.ws) (get_ready_nodes none app.registry);
        app = record app { batch_store = store };
      }

  unfoldable pub post_batch : ℕ → ℕ → (ℕ → ℕ) → Option String → List Request → App → Created
  unfolding refuse
  post_batch now batch_id unit_id model [] app = refuse "invalid_request" app
  post_batch now batch_id unit_id model (r ∷ rs) app =
      if ltb settings.max_batch_requests (length (r ∷ rs))
      then refuse "batch_too_large" app
      else accept now batch_id unit_id model (r ∷ rs) app

-- `list_batches`: the newest first, and those of one instant in the order of the dict.
unfoldable pub newer_first : Batch → List Batch → List Batch
newer_first b [] = b ∷ []
newer_first b (c ∷ cs) = if leb c.created_at b.created_at then b ∷ c ∷ cs else c ∷ newer_first b cs

unfoldable pub newest_first : List Batch → List Batch
newest_first [] = []
newest_first (b ∷ bs) = newer_first b (newest_first bs)

unfoldable pub list_batches : App → List BatchStatus
list_batches app =
    map (batch_status app.batch_store) (newest_first (values app.batch_store.batches))

unfoldable pub get_batch : ℕ → App → Answer BatchStatus
get_batch batch_id app = elim (lookup batch_id app.batch_store.batches) [
  | none ↦ failure 404 "not_found"
  | some b ↦ success 200 (batch_status app.batch_store b)
]

unfoldable pub get_results : ℕ → App → Answer (List ResultRecord)
get_results batch_id app = elim (lookup batch_id app.batch_store.batches) [
  | none ↦ failure 404 "not_found"
  | some b ↦ success 200 (results batch_id app.batch_store)
]

unfoldable pub post_cancel : ℕ → App → Answer BatchStatus × App
post_cancel batch_id app =
    let (done, store) = Cancel.cancel_batch batch_id app.batch_store in
    let app' = record app { batch_store = store } in
    if done then (get_batch batch_id app', app') else (failure 409 "not_cancellable", app)
