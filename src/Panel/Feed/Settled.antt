-- ===== src/Panel/Feed/Settled.antt =====
-- The events of the feed may come twice or overtake a read: what the panel's cache then holds.
use cap_rail.Api.Feed.{FeedEvent, attempt_event, offer_event, policy_event, status_event}
use cap_rail.Api.Views.{InvestorView, JournalEntry, TokenView}
use cap_rail.Panel.Feed.{
  CompanyView, EntryPage, PanelCache, add_to_first, apply_feed_event, apply_policy, apply_to_token,
  has_entry, prepend_entry, upsert_investor,
}
use cap_rail.Prelude.{
  Bool-cases, List, Option, String, ℕ, [], ap, arith, eq_of_===, eq_refl, false, inl, inr, map,
  none, refl, some, true, ◌&&◌, ◌===◌, ◌==◌, ◌∷◌, ◌≡◌,
}
use cap_rail.Shared.Market.{TransferPolicy}
use mathlib.Core.Path.{subst}
use mathlib.Core.Option

has_entry-add :
    (entry : JournalEntry) (page : EntryPage) (pages : List EntryPage)
    → has_entry entry.id (add_to_first entry (page ∷ pages)) ≡ true
has_entry-add entry page pages = ground arith

prepend_entry-twice :
    (pages : List EntryPage) (entry : JournalEntry)
    → prepend_entry (prepend_entry pages entry) entry ≡ prepend_entry pages entry
unfolding prepend_entry
prepend_entry-twice [] entry = refl
prepend_entry-twice (page ∷ pages) entry = elim (Bool-cases (has_entry entry.id (page ∷ pages))) [
  | inl e ↦ rw (e, e) refl
  | inr e ↦ rw (e, has_entry-add entry page pages) refl
]

upsert_investor-twice :
    (rows : List InvestorView) (investor : InvestorView)
    → upsert_investor (upsert_investor rows investor) investor ≡ upsert_investor rows investor
unfolding upsert_investor
upsert_investor-twice [] investor = ground (arith, eq_refl investor.mint, eq_refl investor.wallet)
upsert_investor-twice (row ∷ rows) investor =
    ground
      (arith, eq_refl investor.mint, eq_refl investor.wallet, upsert_investor-twice rows investor)

apply_to_token-twice :
    (mint : String) (policy : TransferPolicy) (version : ℕ) (token : TokenView)
    → apply_to_token mint policy version (apply_to_token mint policy version token)
      ≡ apply_to_token mint policy version token
apply_to_token-twice mint policy version token = ground arith

apply_to_token-swap :
    (mint mint₂ : String) (policy policy₂ : TransferPolicy) (version version₂ : ℕ)
    (token : TokenView)
    → (mint === mint₂ && version == version₂) ≡ false
    → apply_to_token mint policy version (apply_to_token mint₂ policy₂ version₂ token)
      ≡ apply_to_token mint₂ policy₂ version₂ (apply_to_token mint policy version token)
apply_to_token-swap mint mint₂ policy policy₂ version version₂ token h =
    elim (Bool-cases (token.mint === mint)) [
      | inl e ↦ elim (Bool-cases (token.mint === mint₂)) [
        | inl k ↦
            let one : (mint === mint₂) ≡ true =
              subst (λ m. (m === mint₂) ≡ true) (eq_of_=== token.mint mint e) k in
            ground (arith, e, k, one, h)
        | inr k ↦ ground (arith, e, k)
      ]
      | inr e ↦ ground (arith, e)
    ]

map-equal : {A B : Type 0} (f g : A → B) (xs : List A) → ((x : A) → f x ≡ g x) → map f xs ≡ map g xs
map-equal f g [] h = refl
map-equal f g (x ∷ xs) h = rw (h x, map-equal f g xs h) refl

map-twice : {A : Type 0} (f g : A → A) (xs : List A) → map f (map g xs) ≡ map (λ x. f (g x)) xs
map-twice f g [] = refl
map-twice f g (x ∷ xs) = ap (λ ys. f (g x) ∷ ys) (map-twice f g xs)

-- Policies that differ in their mint or their version leave a company's view alike in either order.
apply_policy-swap :
    (mint mint₂ : String) (policy policy₂ : TransferPolicy) (version version₂ : ℕ)
    (view : CompanyView)
    → (mint === mint₂ && version == version₂) ≡ false
    → apply_policy mint policy version (apply_policy mint₂ policy₂ version₂ view)
      ≡ apply_policy mint₂ policy₂ version₂ (apply_policy mint policy version view)
unfolding apply_policy
apply_policy-swap mint mint₂ policy policy₂ version version₂ view h =
    let one = apply_to_token mint policy version in
    let two = apply_to_token mint₂ policy₂ version₂ in
    rw (map-twice one two view.tokens, map-twice two one view.tokens)
      (ap (λ tokens. record view { tokens = tokens })
        (map-equal (λ token. one (two token)) (λ token. two (one token)) view.tokens
          (λ token. apply_to_token-swap mint mint₂ policy policy₂ version version₂ token h)))

apply_policy-twice :
    (mint : String) (policy : TransferPolicy) (version : ℕ) (view : CompanyView)
    → apply_policy mint policy version (apply_policy mint policy version view)
      ≡ apply_policy mint policy version view
unfolding apply_policy
apply_policy-twice mint policy version view =
    let one = apply_to_token mint policy version in
    rw (map-twice one one view.tokens) (
      ap (λ tokens. record view { tokens = tokens })
        (map-equal (λ token. one (one token)) one view.tokens
          (apply_to_token-twice mint policy version)))

map_twice :
    {A : Type 0} (f : A → A)
    → ((a : A) → f (f a) ≡ f a)
    → (o : Option A) → Option.map f (Option.map f o) ≡ Option.map f o
map_twice f h none = refl
map_twice f h (some a) = ap some (h a)

-- An event that comes twice, one after the other, leaves the journal, the registry and the company's view
-- as it left them the first time.
pub apply_feed_event-twice :
    (event : FeedEvent) (cache : PanelCache)
    → let once = apply_feed_event event cache in
      let twice = apply_feed_event event once in
      (twice.journal ≡ once.journal) × (twice.investors ≡ once.investors) × (twice.view ≡ once.view)
apply_feed_event-twice (attempt_event entry) cache = (
  map_twice (λ pages. prepend_entry pages entry) (λ pages. prepend_entry-twice pages entry)
      cache.journal,
  refl,
  refl,
)
apply_feed_event-twice (status_event investor) cache = (
  refl,
  map_twice (λ rows. upsert_investor rows investor) (λ rows. upsert_investor-twice rows investor)
      cache.investors,
  refl,
)
apply_feed_event-twice (policy_event mint policy version set_at) cache = (
  refl,
  refl,
  map_twice (apply_policy mint policy version) (apply_policy-twice mint policy version) cache.view,
)
apply_feed_event-twice (offer_event offer) cache = (refl, refl, refl)
