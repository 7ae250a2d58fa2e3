-- ===== src/Extraction.antt =====
-- tasks/extraction.py: the row of a source, and the statements that its task writes it with. The
-- table is a function of the id, with the columns that the protocol reads and writes.
pub mod Task
mod Credit
mod Steps
pub mod Budget
pub mod Recovery
pub mod Resent
pub mod Waits
pub mod Lost
pub mod Ownership
mod Tests
use powabase_ai.Prelude.{
  ℕ, ◌+◌, ◌*◌, Bool, true, false, not, ◌&&◌, ◌||◌, Option, none, some, List, [], ◌∷◌, String, ltb,
  leb, ◌=s◌, elem, max, if◌then◌else◌,
}

pub data Status : Type 0 where
  pending extracting extracted attention_required failed cancelled : Status

-- error_code
pub data ErrorCode : Type 0 where
  permanent timeout transient : ErrorCode

pub data Warning : Type 0 where
  fallback blank_pages : Warning

-- error_message, by the places that write one
pub data Message : Type 0 where
  timed_out : Message
  interrupted_times : ℕ → Message
  attempt_failed : ℕ → String → Message
  failed_after : ℕ → String → Message
  raised_message : String → Message
  warned : Warning → Message
  -- after the warning that is there, if one is
  images_incomplete : Option Warning → Message

-- The marker in auto_metadata: the two counts, and the task that they are of.
pub record Marker : Type 0 where
  pub interruptions : ℕ
  pub unattributed : ℕ
  pub task : String

pub record Source : Type 0 where
  pub extraction_status : Option Status
  pub celery_task_id : Option String
  pub marker : Option Marker
  pub error_message : Option Message
  pub error_code : Option ErrorCode

abbrev pub Table : Type 0
Table = String → Option Source

abbrev pub is_cancelled : Option Status → Bool
is_cancelled (some cancelled) = true
is_cancelled _ = false

abbrev pub is_extracted : Option Status → Bool
is_extracted (some extracted) = true
is_extracted _ = false

abbrev pub is_extracting : Option Status → Bool
is_extracting (some extracting) = true
is_extracting _ = false

-- `extraction_status <> 'cancelled'`, which NULL does not pass
abbrev pub stays_live : Option Status → Bool
stays_live none = false
stays_live (some s) = not (is_cancelled (some s))

-- `celery_task_id IS NULL OR celery_task_id = :task_id`
abbrev pub may_own : String → Option String → Bool
may_own task none = true
may_own task (some owner) = owner =s task

-- `celery_task_id = :task_id`
abbrev pub owns : String → Option String → Bool
owns task none = false
owns task (some owner) = owner =s task

-- the WHERE of claim_source and of update_source_status
abbrev pub may_write : String → Source → Bool
may_write task r = stays_live r.extraction_status && may_own task r.celery_task_id

abbrev pub put : Table → String → Option Source → Table
put t id row k = if id =s k then row else t k

abbrev pub matching : (Source → Bool) → Option Source → Bool
matching p none = false
matching p (some r) = p r

abbrev pub rewritten : (Source → Source) → Option Source → Option Source
rewritten f none = none
rewritten f (some r) = some (f r)

-- UPDATE ... WHERE id = :id AND p: whether a row matched, and the table
unfoldable pub update_row : String → (Source → Bool) → (Source → Source) → Table → Bool × Table
update_row id p f t =
    if matching p (t id) then (true, put t id (rewritten f (t id))) else (false, t)

-- claim_source
unfoldable pub claim_source : String → String → Table → Bool × Table
unfolding update_row
claim_source id task t =
    update_row id (may_write task)
      (λ r. record r {
        extraction_status = some extracting;
        celery_task_id = some task;
        error_message = none;
        error_code = none;
      })
      t

-- update_source_status on behalf of a task
unfoldable pub update_source_status :
    String → Status → Message → String → Option ErrorCode → Table → Bool × Table
unfolding update_row
update_source_status id status message task code t =
    update_row id (may_write task)
      (λ r. record r {
        extraction_status = some status;
        celery_task_id = some task;
        error_message = some message;
        error_code = code;
      })
      t

-- source_is_owned_by
unfoldable pub source_is_owned_by : String → String → Table → Bool
source_is_owned_by id task t = matching (may_write task) (t id)

-- record_extraction_interruption, which is not fenced
unfoldable pub record_extraction_interruption : String → Marker → Table → Table
unfolding update_row
record_extraction_interruption id m t =
    (update_row id (λ r. true) (λ r. record r { marker = some m }) t).1

-- update_source_extraction_result
unfoldable pub update_source_extraction_result :
    String → Status → Option Message → String → Table → Bool × Table
unfolding update_row
update_source_extraction_result id status message task t =
    update_row id (λ r. stays_live r.extraction_status && owns task r.celery_task_id)
      (λ r. record r { extraction_status = some status; marker = none; error_message = message }) t

-- What the task reads of the metadata of a finished run.
pub record Result : Type 0 where
  pub method : String
  pub requested_method : Bool
  pub page_count : ℕ
  pub char_count : ℕ
  pub page_images_incomplete : Bool

abbrev pub without_ocr : List String
without_ocr = "fitz" ∷ "pdfplumber" ∷ "opendataloader" ∷ []

-- `char_count / page_count < 50`, of 3 pages or more
abbrev pub has_blank_pages : Result → Bool
has_blank_pages r =
    elem r.method without_ocr && (leb 3 r.page_count && ltb r.char_count (50 * r.page_count))

abbrev pub first_warning : Result → Option Warning
first_warning r =
    if r.requested_method
    then some fallback
    else if has_blank_pages r
    then some blank_pages
    else none

-- the status and the warning of a finished run
unfoldable pub outcome_of : Result → Status × Option Message
outcome_of r =
    let warning = first_warning r in
    if r.page_images_incomplete
    then (attention_required, some (images_incomplete warning))
    else elim warning [ none ↦ (extracted, none) | some w ↦ (attention_required, some (warned w)) ]

-- What is charged for: the action that ran, the requested action and the parts of the key, and
-- the pages.
pub record Charge : Type 0 where
  pub action : String
  pub requested_action : String
  pub parts : List String
  pub quantity : ℕ

-- What the route dispatches the task with.
pub record Dispatched : Type 0 where
  pub extraction_model : Option String
  pub reextract_seed : Option String

abbrev pub is_model : String → Option String → Bool
is_model name none = false
is_model name (some m) = m =s name

-- _OCR_EXTRACTION_METHODS
abbrev pub ocr_methods : List String
ocr_methods = "mistral_ocr" ∷ "paddleocr_vl" ∷ "lighton_ocr" ∷ []

-- _ADVANCED_OCR_EXTRACTION_METHODS
abbrev pub advanced_ocr_methods : List String
advanced_ocr_methods = "llamaparse_ocr" ∷ []

-- the charge of a finished run, if its method is OCR
unfoldable pub charge_of : String → Dispatched → Result → Option Charge
charge_of id d r =
    if elem r.method ocr_methods || elem r.method advanced_ocr_methods
    then some (record {
      action = if elem r.method advanced_ocr_methods then "advanced_ocr" else "ocr_pages";
      requested_action =
          if is_model "llamaparse" d.extraction_model then "advanced_ocr" else "ocr_pages";
      parts = elim d.reextract_seed [
        | none ↦ id ∷ []
        | some seed ↦ if seed =s "" then id ∷ [] else id ∷ seed ∷ []
      ];
      quantity = max 1 r.page_count;
    })
    else none
