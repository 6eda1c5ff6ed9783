-- ===== src/Store/ChatModes.antt =====
-- How the bot behaves in a group, internal/store/store.go: NormalizeChatMode, GetChatMode,
-- SetChatMode and ListChatModes. The splitting of a text at "|", ",", blanks and tabs by
-- `strings.FieldsFunc` is a parameter.
pub mod Laws
use saturnus.Base.{
  String, Bool, true, false, not, ◌&&◌, ◌||◌, Option, none, some, List, [], ◌∷◌, ◌++◌, ◌==◌,
  if◌then◌else◌, any, Result, ok, err, failure, commit, find_row, update_rows, ◌>>=◌, ◌>>◌,
}
use saturnus.Store.Types.{Env, ChatMode, Store}

-- The set of flags that are seen, of which only two are allowed.
pub record Flags : Type 0 where
  pub report : Bool
  pub review : Bool

unfoldable pub collect : List String → Flags → Result Flags
collect [] seen = ok seen
collect (part ∷ parts) seen =
    let skipped = collect parts seen in
    let reviewed = collect parts (record seen { review = true }) in
    let reported = collect parts (record seen { report = true }) in
    if part == ""
    then skipped
    else if part == "review"
    then reviewed
    else if part == "report"
    then reported
    else err (failure "unknown mode flag")

-- the flags sorted and joined by "|"
unfoldable pub join_flags : Flags → Result String
join_flags seen =
    if seen.report
    then (if seen.review then ok "report|review" else ok "report")
    else (if seen.review then ok "review" else err (failure "empty chat mode"))

module _ (fields : String → List String) where
  unfoldable pub normalize_chat_mode : String → Result String
  normalize_chat_mode mode =
      collect (fields mode) (record { report = false; review = false }) >>= join_flags

  abbrev pub or_else : String → Result String → String
  or_else d (ok mode) = mode
  or_else d (err e) = d

  unfoldable pub get_chat_mode : String → Store → String
  get_chat_mode chat_id s =
      let stored = elim (find_row (λ c. c.chat_id == chat_id) s.chat_modes) as (λ o. String) [
        | none ↦ "review"
        | some c ↦ if c.mode == "" then "review" else or_else c.mode (normalize_chat_mode c.mode)
      ] in
      if chat_id == "" then "review" else stored

  -- INSERT … ON CONFLICT(chat_id) DO UPDATE
  abbrev pub upsert_mode : ChatMode → List ChatMode → List ChatMode
  upsert_mode row rows =
      if any (λ c. c.chat_id == row.chat_id) rows
      then update_rows (λ c. c.chat_id == row.chat_id) (λ c. record row { chat_id = c.chat_id })
          rows
      else rows ++ row ∷ []

  unfoldable pub set_chat_mode : Env → String → String → Store → Store × Result ChatMode
  set_chat_mode env chat_id mode s = commit s do
    normalized ← normalize_chat_mode mode
    let row : ChatMode = record { chat_id = chat_id; mode = normalized; updated_at = env.now }
    ok (record s { chat_modes = upsert_mode row s.chat_modes }, row)

-- The order, by the stored text of `updated_at`, is left out.
unfoldable pub list_chat_modes : Store → List ChatMode
list_chat_modes s = s.chat_modes
