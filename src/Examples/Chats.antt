-- ===== src/Examples/Chats.antt =====
-- Chat modes, the synchronization of reviews and pages of findings on concrete rows.
use saturnus.Base.{
  String, false, ◌==◌, List, [], ◌∷◌, ◌≡◌, ◌⊎◌, refl, ok, err, Error, if◌then◌else◌, length, arith,
}
use saturnus.Store.Types.{ChatMode, ReviewFinding, empty_store}
use saturnus.Store.ChatModes.{get_chat_mode, set_chat_mode}
use saturnus.Store.ChatModes.Laws.{set-get_chat_mode}
use saturnus.Store.Sync.{save_review_sync}
use saturnus.Store.Sync.Laws.{save_review_sync-once}
use saturnus.Review.Paging.{pages_of}
use saturnus.Review.Paging.Laws.{first_pages, pages-join}
use saturnus.Examples.Rows.{monday, tuesday, waiting_review, small, strange_finding}

-- the splitting of the canonical texts; any other text is one flag
abbrev fields : String → List String
fields s = if s == "report|review" then "report" ∷ "review" ∷ [] else s ∷ []

set-get_chat_mode_example :
    ((e : Error) × ((set_chat_mode fields monday "oc1" "report" empty_store).1 ≡ err e)
      × ((set_chat_mode fields monday "oc1" "report" empty_store).0 ≡ empty_store))
    ⊎ ((row : ChatMode) × ((set_chat_mode fields monday "oc1" "report" empty_store).1 ≡ ok row)
        × ((row.mode ≡ "review") ⊎ ((row.mode ≡ "report") ⊎ (row.mode ≡ "report|review")))
        × (get_chat_mode fields "oc1" (set_chat_mode fields monday "oc1" "report" empty_store).0
            ≡ row.mode)
        × (get_chat_mode fields "oc2" (set_chat_mode fields monday "oc1" "report" empty_store).0
            ≡ get_chat_mode fields "oc2" empty_store))
set-get_chat_mode_example =
    set-get_chat_mode fields refl refl refl monday "oc1" "report" "oc2" empty_store refl refl refl

save_review_sync-once_example :
    save_review_sync tuesday waiting_review waiting_review
      (save_review_sync monday waiting_review
        (record waiting_review { status = "archived" })
        small).0
    ≡ (
      (save_review_sync monday waiting_review
          (record waiting_review { status = "archived" })
          small).0,
      false,
    )
save_review_sync-once_example =
    save_review_sync-once monday tuesday waiting_review
      (record waiting_review { status = "archived" }) waiting_review small (λ e. omega arith)

abbrev six : List ReviewFinding
six =
    strange_finding ∷ strange_finding ∷ strange_finding ∷ strange_finding ∷ strange_finding
    ∷ strange_finding ∷ []

pages-join_example : first_pages (pages_of (length six)) six ≡ six
pages-join_example = pages-join six
