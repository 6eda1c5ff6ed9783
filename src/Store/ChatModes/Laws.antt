-- ===== src/Store/ChatModes/Laws.antt =====
-- Setting the mode of a chat and reading it back.
use mathlib.Core.Option.{Option}
use saturnus.Base.{
  find_some-any, Error, find-update_other, find_none-any, String, false, List, [], ◌∷◌, ◌==◌, ◌≡◌,
  ◌⊎◌, inl, inr, refl, sym, ap, ◌∙◌, any, none, some, if◌then◌else◌, ok, err, ok_inj, Bool-cases,
  Option-cases, Result-cases, find_row, find-update, find_row_holds, eq_refl, find-append_none,
  find-append_some,
}
use mathlib.Core.Option
use saturnus.Store.Types.{Env, ChatMode, Store}
use saturnus.Store.ChatModes.{
  Flags, collect, join_flags, normalize_chat_mode, or_else, get_chat_mode, upsert_mode,
  set_chat_mode,
}

module _ (fields : String → List String) (review : fields "review" ≡ "review" ∷ [])
    (report : fields "report" ≡ "report" ∷ [])
    (both : fields "report|review" ≡ "report" ∷ "review" ∷ []) where
  abbrev IsCanonical : String → Type 0
  IsCanonical mode = (mode ≡ "review") ⊎ ((mode ≡ "report") ⊎ (mode ≡ "report|review"))

  join-IsCanonical : (f : Flags) (mode : String) → join_flags f ≡ ok mode → IsCanonical mode
  unfolding join_flags
  join-IsCanonical f mode h = elim (Bool-cases f.report) [
    | inl e ↦ elim (Bool-cases f.review) [
      | inl k ↦ inr (inr (sym (ok_inj (rw (e, k) at h))))
      | inr k ↦ inr (inl (sym (ok_inj (rw (e, k) at h))))
    ]
    | inr e ↦ elim (Bool-cases f.review) [
      | inl k ↦ inl (sym (ok_inj (rw (e, k) at h)))
      | inr k ↦ absurd (cc (h, e, k))
    ]
  ]

  normalize-IsCanonical :
      (raw mode : String) → normalize_chat_mode fields raw ≡ ok mode → IsCanonical mode
  unfolding normalize_chat_mode
  normalize-IsCanonical raw mode h =
      elim (Result-cases (collect (fields raw) (record { report = false; review = false }))) [
        | inl (f, e) ↦ join-IsCanonical f mode (rw e at h)
        | inr (why, e) ↦ absurd (cc (h, e))
      ]

  -- A mode in canonical form is its own canonical form.
  canonical-normal : (mode : String) → IsCanonical mode → normalize_chat_mode fields mode ≡ ok mode
  unfolding normalize_chat_mode collect join_flags
  canonical-normal mode (inl e) = rw (e, review) refl
  canonical-normal mode (inr (inl e)) = rw (e, report) refl
  canonical-normal mode (inr (inr e)) = rw (e, both) refl

  upsert-find :
      (row : ChatMode) (rows : List ChatMode)
      → Option.map
          (λ c. c.mode)
          (find_row (λ c. c.chat_id == row.chat_id) (upsert_mode fields row rows))
        ≡ some row.mode
  upsert-find row rows = elim (Option-cases (find_row (λ c. c.chat_id == row.chat_id) rows)) [
    | inl e ↦
        rw (find_none-any (λ c. c.chat_id == row.chat_id) rows e) (
          rw (find-append_none (λ c. c.chat_id == row.chat_id) rows row e, eq_refl row.chat_id)
            refl)
    | inr (old, e) ↦
        let set : ChatMode → ChatMode = λ c. record row { chat_id = c.chat_id } in
        rw (find_some-any (λ c. c.chat_id == row.chat_id) rows old e) (
          rw
            (
              find-update (λ c. c.chat_id == row.chat_id) set (λ c. c.chat_id == row.chat_id) rows
                  (λ c. refl),
              e,
              find_row_holds (λ c. c.chat_id == row.chat_id) rows old e,
            )
            refl)
  ]

  upsert-find_other :
      (row : ChatMode) (j : String) (rows : List ChatMode)
      → (row.chat_id == j) ≡ false
      → find_row (λ c. c.chat_id == j) (upsert_mode fields row rows)
        ≡ find_row (λ c. c.chat_id == j) rows
  upsert-find_other row j rows n = elim (Bool-cases (any (λ c. c.chat_id == row.chat_id) rows)) [
    | inl e ↦ rw e (
        find-update_other (λ c. c.chat_id) row.chat_id j (λ c. c.chat_id == row.chat_id)
          (λ c. record row { chat_id = c.chat_id }) rows (λ c h. h) (λ c. refl) n)
    | inr e ↦ rw e (elim (Option-cases (find_row (λ c. c.chat_id == j) rows)) [
      | inl k ↦ find-append_none (λ c. c.chat_id == j) rows row k ∙ rw (n, k) refl
      | inr (old, k) ↦ find-append_some (λ c. c.chat_id == j) rows row old k ∙ sym k
    ])
  ]

  -- the mode that a row gives when it is read
  abbrev read : Option String → String
  read none = "review"
  read (some mode) =
      if mode == "" then "review" else or_else fields mode (normalize_chat_mode fields mode)

  read-canonical : (mode : String) → IsCanonical mode → read (some mode) ≡ mode
  read-canonical mode c = rw (canonical-nonempty c, canonical-normal mode c) refl
    where
      canonical-nonempty : IsCanonical mode → (mode == "") ≡ false
      canonical-nonempty (inl e) = rw e refl
      canonical-nonempty (inr (inl e)) = rw e refl
      canonical-nonempty (inr (inr e)) = rw e refl

  get-read :
      (id : String) (s : Store)
      → (id == "") ≡ false
      → get_chat_mode fields id s
        ≡ read (Option.map (λ c. c.mode) (find_row (λ c. c.chat_id == id) s.chat_modes))
  unfolding get_chat_mode
  get-read id s n = elim (Option-cases (find_row (λ c. c.chat_id == id) s.chat_modes)) [
    | inl e ↦ rw (n, e) refl
    | inr (c, e) ↦ rw (n, e) refl
  ]

  -- Where the three canonical texts split at "|" as they read: setting the mode of a chat that has
  -- an id either refuses the text and changes nothing, or answers one of the three canonical modes,
  -- which is what the chat then reads back, while any other chat with an id reads what it did.
  pub set-get_chat_mode :
      (env : Env) (chat_id mode other : String) (s : Store)
      → (chat_id == "") ≡ false
      → (other == "") ≡ false
      → (chat_id == other) ≡ false
      → let (t, r) = set_chat_mode fields env chat_id mode s in
        ((e : Error) × (r ≡ err e) × (t ≡ s))
        ⊎ ((row : ChatMode) × (r ≡ ok row)
            × ((row.mode ≡ "review") ⊎ ((row.mode ≡ "report") ⊎ (row.mode ≡ "report|review")))
            × (get_chat_mode fields chat_id t ≡ row.mode)
            × (get_chat_mode fields other t ≡ get_chat_mode fields other s))
  unfolding set_chat_mode
  set-get_chat_mode env chat_id mode other s n k apart =
      elim (Result-cases (normalize_chat_mode fields mode)) [
        | inr (why, e) ↦ rw e (inl (why, refl, refl))
        | inl (flags, e) ↦
            let row : ChatMode = record { chat_id = chat_id; mode = flags; updated_at = env.now } in
            let t : Store = record s { chat_modes = upsert_mode fields row s.chat_modes } in
            let shape = normalize-IsCanonical mode flags e in
            rw e (
              inr (
                row,
                refl,
                shape,
                get-read chat_id t n
                    ∙ ap read (upsert-find row s.chat_modes)
                    ∙ read-canonical flags shape,
                get-read other t k
                    ∙ ap (λ o. read (Option.map (λ c. c.mode) o))
                        (upsert-find_other row other s.chat_modes apart)
                    ∙ sym (get-read other s k),
              ))
      ]
