-- ===== src/Panel/Feed/Entries.antt =====
-- The journal of the panel's cache: which entries it holds after any events, and how often.
use cap_rail.Api.Feed.{FeedEvent, attempt_event, offer_event, policy_event, status_event}
use cap_rail.Api.Views.{JournalEntry}
use cap_rail.Panel.Connection.{
  Action, cancel, connecting, fetch, on_frame, opened, retrying, schedule, status,
}
use cap_rail.Panel.Feed.{EntryPage, PanelCache, apply_feed_event, has_entry, prepend_entry}
use cap_rail.Panel.Feed.Hook.{FeedHook, hear, on_action, parse_feed_frame}
use cap_rail.Panel.Sse.{CodeUnits}
use cap_rail.Prelude.{
  Bool, Bool-cases, List, Option, Option-cases, ℕ, [], ap, arith, false, has, if◌then◌else◌, inl,
  inr, leb, none, refl, some, sym, ◌+◌, ◌==◌, ◌||◌, ◌∙◌, ◌∷◌, ◌≡◌, ◌≤◌,
}

-- How often an entry stands on the pages.
abbrev items_with : ℕ → List JournalEntry → ℕ
items_with id [] = 0
items_with id (item ∷ items) = (if item.id == id then 1 else 0) + items_with id items

abbrev pub entries_with : ℕ → List EntryPage → ℕ
entries_with id [] = 0
entries_with id (page ∷ pages) = items_with id page.items + entries_with id pages

-- An event of an attempt with that id.
abbrev pub announces : ℕ → FeedEvent → Bool
announces id (attempt_event entry) = entry.id == id
announces id _ = false

-- The pages, where the journal is loaded.
abbrev pub pages_of : Option (List EntryPage) → List EntryPage
pages_of none = []
pages_of (some pages) = pages

-- 1 for true and 0 for false.
abbrev pub once_if : Bool → ℕ
once_if b = if b then 1 else 0

items_with-has :
    (id : ℕ) (items : List JournalEntry)
    → has (λ item. item.id == id) items ≡ leb 1 (items_with id items)
items_with-has id [] = refl
items_with-has id (item ∷ items) = ground (arith, items_with-has id items)

entries_with-has :
    (id : ℕ) (pages : List EntryPage) → has_entry id pages ≡ leb 1 (entries_with id pages)
entries_with-has id [] = refl
entries_with-has id (page ∷ pages) =
    ground (arith, items_with-has id page.items, entries_with-has id pages)

prepend_entry-count :
    (id : ℕ) (page : EntryPage) (pages : List EntryPage) (entry : JournalEntry)
    → entries_with id (page ∷ pages) ≤ 1
    → entries_with id (prepend_entry (page ∷ pages) entry)
      ≡ once_if (entry.id == id || has_entry id (page ∷ pages))
unfolding prepend_entry
prepend_entry-count id page pages entry h =
    ground (arith, entries_with-has id (page ∷ pages), entries_with-has entry.id (page ∷ pages))

abbrev first_after : Bool → EntryPage → JournalEntry → EntryPage
first_after known page entry = if known then page else record page { items = entry ∷ page.items }

prepend_entry-pages :
    (page : EntryPage) (pages : List EntryPage) (entry : JournalEntry)
    → prepend_entry (page ∷ pages) entry
      ≡ first_after (has_entry entry.id (page ∷ pages)) page entry ∷ pages
unfolding prepend_entry
prepend_entry-pages page pages entry = elim (Bool-cases (has_entry entry.id (page ∷ pages))) [
  | inl e ↦ rw e refl
  | inr e ↦ rw e refl
]

-- The pages after one event, behind the same first page or one with an entry more.
abbrev After : ℕ → Bool → Option (List EntryPage) → EntryPage → List EntryPage → Type 0
After id told journal page pages =
    (first : EntryPage) × ((journal ≡ some (first ∷ pages))
      × (entries_with id (first ∷ pages) ≡ once_if (told || has_entry id (page ∷ pages))))

apply_feed_event-After :
    (id : ℕ) (event : FeedEvent) (cache : PanelCache) (page : EntryPage) (pages : List EntryPage)
    → cache.journal ≡ some (page ∷ pages)
    → entries_with id (page ∷ pages) ≤ 1
    → After id (announces id event) (apply_feed_event event cache).journal page pages
apply_feed_event-After id (attempt_event entry) cache page pages e h =
    let shape = prepend_entry-pages page pages entry in
    (
      first_after (has_entry entry.id (page ∷ pages)) page entry,
      (
        rw e (ap some shape),
        ap (entries_with id) (sym shape) ∙ prepend_entry-count id page pages entry h,
      ),
    )
apply_feed_event-After id (status_event investor) cache page pages e h =
    (page, (e, ground (arith, entries_with-has id (page ∷ pages))))
apply_feed_event-After id (policy_event mint policy version set_at) cache page pages e h =
    (page, (e, ground (arith, entries_with-has id (page ∷ pages))))
apply_feed_event-After id (offer_event offer) cache page pages e h =
    (page, (e, ground (arith, entries_with-has id (page ∷ pages))))

-- The event of an attempt with that id.
abbrev told_by : ℕ → Option FeedEvent → Bool
told_by id none = false
told_by id (some event) = announces id event

-- A frame that carries an attempt with that id.
abbrev pub tells : (CodeUnits → Option FeedEvent) → ℕ → Action → Bool
tells parsed id (on_frame frame) = told_by id (parse_feed_frame parsed frame)
tells parsed id _ = false

on_action-After :
    (parsed : CodeUnits → Option FeedEvent) (id : ℕ) (action : Action) (hook : FeedHook)
    (page : EntryPage) (pages : List EntryPage)
    → hook.cache.journal ≡ some (page ∷ pages)
    → entries_with id (page ∷ pages) ≤ 1
    → After id (tells parsed id action) (on_action parsed action hook).cache.journal page pages
unfolding on_action
on_action-After parsed id (on_frame frame) hook page pages e h =
    elim (Option-cases (parse_feed_frame parsed frame)) [
      | inl dropped ↦ rw dropped (page, (e, ground (arith, entries_with-has id (page ∷ pages))))
      | inr (event, read) ↦ rw read (apply_feed_event-After id event hook.cache page pages e h)
    ]
on_action-After parsed id (status opened) hook page pages e h =
    (page, (e, ground (arith, entries_with-has id (page ∷ pages))))
on_action-After parsed id (status connecting) hook page pages e h =
    (page, (e, ground (arith, entries_with-has id (page ∷ pages))))
on_action-After parsed id (status (retrying attempt text)) hook page pages e h =
    (page, (e, ground (arith, entries_with-has id (page ∷ pages))))
on_action-After parsed id (fetch bearer) hook page pages e h =
    (page, (e, ground (arith, entries_with-has id (page ∷ pages))))
on_action-After parsed id cancel hook page pages e h =
    (page, (e, ground (arith, entries_with-has id (page ∷ pages))))
on_action-After parsed id (schedule delay) hook page pages e h =
    (page, (e, ground (arith, entries_with-has id (page ∷ pages))))

-- Where the first page of the journal is loaded and an entry stands on the pages at most once, then after
-- any turns of the stream, and as long as no refetched read takes the place of the pages, it stands on
-- them exactly once if a frame that parses carried it or it stood there before, and not at all otherwise:
-- none is lost and none is added twice.
pub hear-entries :
    (parsed : CodeUnits → Option FeedEvent) (id : ℕ) (actions : List Action) (hook : FeedHook)
    (page : EntryPage) (pages : List EntryPage)
    → hook.cache.journal ≡ some (page ∷ pages)
    → entries_with id (page ∷ pages) ≤ 1
    → entries_with id (pages_of (hear parsed actions hook).cache.journal)
      ≡ once_if (has (tells parsed id) actions || has_entry id (page ∷ pages))
unfolding hear
hear-entries parsed id [] hook page pages e h =
    rw e (ground (arith, entries_with-has id (page ∷ pages)))
hear-entries parsed id (action ∷ actions) hook page pages e h =
    let (first, (loaded, counted)) = on_action-After parsed id action hook page pages e h in
    let bound : entries_with id (first ∷ pages) ≤ 1 = ground (arith, counted) in
    hear-entries parsed id actions (on_action parsed action hook) first pages loaded bound
    ∙ ground (arith, counted, entries_with-has id (first ∷ pages))
