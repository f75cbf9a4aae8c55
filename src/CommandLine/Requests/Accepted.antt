-- ===== src/CommandLine/Requests/Accepted.antt =====
-- A file of prompts, from its lines to the batch that the server counts.
use fleet_lm.Base.{
  ℕ, suc, ◌+◌, ◌≤◌, String, Bool, true, false, ◌&&◌, Option, none, some, ◌⊎◌, ◌≡◌, ◌≢◌, refl, sym,
  ap, ◌∙◌, List, [], ◌∷◌, arith, ltb, length, length-map, count_if, Bool-cases, inl, inr, non_empty,
  strip, lookup, lookup-insert_same,
}
use fleet_lm.Config.{Settings}
use fleet_lm.Engine.{Attempt}
use fleet_lm.Batch.Data.{Message, Request, Batch, BatchStore}
use fleet_lm.Batch.Submit.{request_units, create_batch}
use fleet_lm.Batch.Status.{Counts, counts, tally, known_units, no_units}
use fleet_lm.Server.App.{App}
use fleet_lm.Server.Batches.{
  Created, BatchStatus, batch_status, success, failure, accept, post_batch,
}
use fleet_lm.CommandLine.Requests.Posted.{
  checked, item_request, add_request, create_requests, post_items,
}
use fleet_lm.CommandLine.Requests.{
  Value, typed, untyped, Item, Json, Defaults, Problem, Reading, usable, unusable, add_reading,
  load_lines, load_requests,
}

abbrev pub is_blank_free : String → Bool
is_blank_free raw = non_empty (strip raw)

length-add_reading :
    (r : Reading) (rest : List Item × List Problem)
    → length (add_reading r rest).0 + length (add_reading r rest).1
      ≡ suc (length rest.0 + length rest.1)
unfolding add_reading
length-add_reading (usable r) rest = omega arith
length-add_reading (unusable p) rest = omega arith

-- Each line that is not blank gives a request or a problem.
length-load_lines :
    (json_loads : String → Attempt Json) (defaults : Defaults) (line : ℕ) (raws : List String)
    → let (requests, problems) = load_lines json_loads defaults line raws in
      length requests + length problems ≡ count_if is_blank_free raws
unfolding load_lines count_if
length-load_lines json_loads defaults line [] = refl
length-load_lines json_loads defaults line (raw ∷ raws) =
    let below = length-load_lines json_loads defaults (suc line) raws in
    elim (Bool-cases (non_empty (strip raw))) [
      | inl e ↦ rw (e, load_lines, count_if) (length-add_reading _ _ ∙ ap suc below)
      | inr e ↦ rw (e, load_lines, count_if) below
    ]

length-request_units :
    (now batch_id : ℕ) (unit_id : ℕ → ℕ) (model : Option String) (i : ℕ) (reqs : List Request)
    → length (request_units now batch_id unit_id model i reqs) ≡ length reqs
unfolding request_units
length-request_units now batch_id unit_id model i [] = refl
length-request_units now batch_id unit_id model i (r ∷ rs) =
    ap suc (length-request_units now batch_id unit_id model (suc i) rs)

counts-total :
    (b : ℕ) (batch : Batch) (s : BatchStore)
    → lookup b s.batches ≡ some batch
    → (c : Counts) × (counts b s ≡ some c) × (c.total ≡ length batch.unit_ids)
counts-total b batch s h = (
  record {
    total = length batch.unit_ids;
    tally = tally (known_units batch.unit_ids s.units) no_units;
  },
  unfold counts in rw (h, counts) refl,
  refl,
)

created-total :
    (now batch_id : ℕ) (unit_id : ℕ → ℕ) (model : Option String) (requests : List Request)
    (s : BatchStore)
    → let (batch, s') = create_batch now batch_id unit_id model requests s in
      (c : Counts) × (counts batch.id s' ≡ some c) × (c.total ≡ length requests)
unfolding create_batch
created-total now batch_id unit_id model requests s =
    let made = create_batch now batch_id unit_id model requests s in
    let (c, e, n) =
      counts-total batch_id made.0 made.1 (lookup-insert_same batch_id made.0 s.batches) in
    (
      c,
      e,
      n
          ∙ length-map (λ u. u.id) (request_units now batch_id unit_id model 0 requests)
          ∙ length-request_units now batch_id unit_id model 0 requests,
    )

-- A list that is accepted is counted whole.
post_batch-total :
    (settings : Settings) (now batch_id : ℕ) (unit_id : ℕ → ℕ) (model : Option String)
    (requests : List Request) (app : App)
    → requests ≢ []
    → length requests ≤ settings.max_batch_requests
    → (st : BatchStatus) × (c : Counts) × ((post_batch settings now batch_id unit_id model requests
          app).answer
        ≡ success 201 st)
      × (st.request_counts ≡ some c)
      × (c.total ≡ length requests)
unfolding post_batch accept batch_status
post_batch-total settings now batch_id unit_id model [] app h small = absurd (h refl)
post_batch-total settings now batch_id unit_id model (r ∷ rs) app h small =
    let fits : ltb settings.max_batch_requests (length (r ∷ rs)) ≡ false = ground arith in
    let (c, e, n) = created-total now batch_id unit_id model (r ∷ rs) app.batch_store in
    let made = create_batch now batch_id unit_id model (r ∷ rs) app.batch_store in
    (batch_status made.1 made.0, c, rw fits refl, e, n)

abbrev is_typed : {A : Type 0} → Value A → Bool
is_typed (typed a) = true
is_typed (untyped truth) = false

-- Every field of every item has its type.
unfoldable pub all_typed : List Item → Bool
all_typed [] = true
all_typed (i ∷ is) =
    is_typed i.messages && is_typed i.max_tokens && is_typed i.temperature && all_typed is

-- What the check of the items gives.
abbrev IsChecked : List Item → Option (List Request) → Type 0
IsChecked items none = all_typed items ≡ false
IsChecked items (some rs) = (all_typed items ≡ true) × (length rs ≡ length items)

item-IsChecked :
    (m : Value (List Message)) (n k : Value ℕ) (is : List Item) (o : Option (List Request))
    → IsChecked is o
    → IsChecked
        (record { messages = m; max_tokens = n; temperature = k } ∷ is)
        (add_request (checked m n k) o)
unfolding all_typed add_request checked
item-IsChecked (typed m) (typed n) (typed k) is none h = h
item-IsChecked (typed m) (typed n) (typed k) is (some rs) (ok, same) = (ok, ap suc same)
item-IsChecked (untyped b) n k is o h = refl
item-IsChecked (typed m) (untyped b) k is o h = refl
item-IsChecked (typed m) (typed n) (untyped b) is o h = refl

create_requests-IsChecked : (items : List Item) → IsChecked items (create_requests items)
unfolding create_requests all_typed item_request
create_requests-IsChecked [] = (refl, refl)
create_requests-IsChecked (i ∷ is) =
    item-IsChecked i.messages i.max_tokens i.temperature is (create_requests is)
      (create_requests-IsChecked is)

length-nil : (items : List Item) → length items ≡ 0 → items ≡ []
length-nil [] h = refl
length-nil (i ∷ is) h = absurd (omega (arith, h))

module _ (settings : Settings) (now batch_id : ℕ) (unit_id : ℕ → ℕ) (model : Option String)
    (items : List Item) (app : App) (some_items : items ≢ [])
    (small : length items ≤ settings.max_batch_requests) where
  abbrev posted : Created
  posted = post_items settings now batch_id unit_id model items app

  -- The body is refused, or accepted and counted whole.
  post_items-cases :
      (o : Option (List Request))
      → create_requests items ≡ o
      → IsChecked items o
      → ((all_typed items ≡ false)
          × (posted.answer ≡ failure 422 "validation_error")
          × (posted.app ≡ app))
        ⊎ ((all_typed items ≡ true)
            × (st : BatchStatus) × (c : Counts) × (posted.answer ≡ success 201 st)
            × (st.request_counts ≡ some c)
            × (c.total ≡ length items))
  unfolding post_items
  post_items-cases none e bad = inl (bad, rw (e, post_items) refl, rw (e, post_items) refl)
  post_items-cases (some rs) e (good, same) =
      let (st, c, answered, q, n) =
        post_batch-total settings now batch_id unit_id model rs app
          (λ h. some_items (length-nil items (sym same ∙ ap length h))) (rw same small) in
      inr (good, st, c, rw (e, post_items) answered, q, n ∙ same)

-- From a file of prompts to the batch that the server counts, where the file gives a request, and no
-- more than a batch may have. Either a field of some request has not the type that the server wants,
-- which the client does not check, and the server answers 422 and creates nothing; or the server
-- accepts the batch, and the total that it answers together with the lines that the client skips as
-- problems is the number of lines that are not blank.
pub load_requests-accepted :
    (json_loads : String → Attempt Json) (defaults : Defaults) (lines : List String)
    (settings : Settings) (now batch_id : ℕ) (unit_id : ℕ → ℕ) (model : Option String) (app : App)
    → let (items, problems) = load_requests json_loads defaults lines in
      let posted = post_items settings now batch_id unit_id model items app in
      items ≢ []
      → length items ≤ settings.max_batch_requests
      → ((all_typed items ≡ false)
          × (posted.answer ≡ failure 422 "validation_error")
          × (posted.app ≡ app))
        ⊎ ((all_typed items ≡ true)
            × (st : BatchStatus) × (c : Counts) × (posted.answer ≡ success 201 st)
            × (st.request_counts ≡ some c)
            × (c.total + length problems ≡ count_if is_blank_free lines))
unfolding load_requests
load_requests-accepted json_loads defaults lines settings now batch_id unit_id model app h small =
    let loaded = load_lines json_loads defaults 1 lines in
    elim (post_items-cases settings now batch_id unit_id model loaded.0 app h small _ refl
      (create_requests-IsChecked loaded.0)) [
        | inl bad ↦ inl bad
        | inr (good, st, c, answered, q, n) ↦ inr (
          good,
          st,
          c,
          answered,
          q,
          ap (λ k. k + length loaded.1) n ∙ length-load_lines json_loads defaults 1 lines,
        )
      ]
