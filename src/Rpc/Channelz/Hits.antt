-- ===== src/Rpc/Channelz/Hits.antt =====
-- Where the result of a loop over a listing comes from: framework/rpc/grpc_channelz.py.
use psm_interop.Errors.{Exception}
use psm_interop.Common.{
  ap, ◌⊎◌, inl, inr, Bool, true, false, if◌then◌else◌, ℕ, zero, suc, ◌≡◌, Option, none, some, List,
  [], ◌∷◌,
}
use psm_interop.Common.Effects.{returned, Effect, pure, bind-returned}
use mathlib.Core.List.{Mem, mem-cons_self, mem-cons_of_mem}
use psm_interop.Rpc.Channelz.{
  Page, Scan, found, finished, scan_items, or_on, after_page, scan, highest,
}

module _ {W R : Type 0} where
  or_on-hit :
      (rest : Effect W Exception (Option R)) (o : Option R) (u w' : W) (r : R)
      → or_on rest o u ≡ (returned (some r), w')
      → (rest u ≡ (returned (some r), w')) ⊎ ((o ≡ some r) × (u ≡ w'))
  or_on-hit rest none u w' r h = inl h
  or_on-hit rest (some x) u w' r h = inr (cc, ap (λ end. end.1) h)

module _ {W A R : Type 0} (body : A → Effect W Exception (Option R)) where
  -- What a loop returns, its body has returned for one of the items, last of all.
  pub scan_items-hit :
      (items : List A) (r : R) (w w' : W)
      → scan_items body items w ≡ (returned (some r), w')
      → (a : A) × (u : W) × Mem a items × (body a u ≡ (returned (some r), w'))
  unfolding scan_items
  scan_items-hit [] r w w' h = absurd (cc)
  scan_items-hit (a ∷ items) r w w' h =
      let (o, u, first, rest) =
        bind-returned (body a) (or_on (scan_items body items)) w w' (some r) h in
      elim (or_on-hit (scan_items body items) o u w' r rest) [
        | inl later ↦
            let (b, v, later_on, hit) = scan_items-hit items r u w' later in
            (b, v, mem-cons_of_mem a later_on, hit)
        | inr here ↦ (a, w, mem-cons_self, cc (first, here.0, here.1))
      ]

-- The item is in the answer to a request for a page.
abbrev pub Listed : {W A : Type 0} → ((start : ℕ) → Effect W Exception (Page A)) → A → Type 0
Listed {W} {A} get_page a =
    (start : ℕ) × (page : Page A) × (u v : W) × (get_page start u ≡ (returned page, v))
    × Mem a page.items

module _ {W A R : Type 0} (id : A → ℕ) (get_page : (start : ℕ) → Effect W Exception (Page A))
    (body : A → Effect W Exception (Option R)) where
  after_page-hit :
      (page : Page A) (rest : Effect W Exception (Scan R)) (o : Option R) (u w' : W) (r : R)
      → after_page id get_page body page rest o u ≡ (returned (found r), w')
      → (rest u ≡ (returned (found r), w')) ⊎ ((o ≡ some r) × (u ≡ w'))
  after_page-hit page rest (some x) u w' r h = inr (cc, ap (λ end. end.1) h)
  after_page-hit page rest none u w' r h = split page.last h
    where
      split :
          (b : Bool)
          → (if b then pure finished else rest) u ≡ (returned (found r), w')
          → (rest u ≡ (returned (found r), w')) ⊎ ((◌≡◌ {A = Option R} none (some r)) × (u ≡ w'))
      split true h = absurd (cc)
      split false h = inl h

  -- What a loop over all pages finds, its body has returned for a listed item, last of all.
  pub scan-hit :
      (pages start : ℕ) (r : R) (w w' : W)
      → scan id get_page body pages start w ≡ (returned (found r), w')
      → (a : A) × (u : W) × Listed get_page a × (body a u ≡ (returned (some r), w'))
  unfolding scan
  scan-hit zero start r w w' h = absurd (cc)
  scan-hit (suc pages) start r w w' h =
      let (page, u, got, scanned) = bind-returned (get_page start) _ w w' (found r) h in
      let rest = scan id get_page body pages (suc (highest id start page.items)) in
      let (o, v, items, after) =
        bind-returned (scan_items body page.items) (after_page id get_page body page rest) u w'
          (found r) scanned in
      elim (after_page-hit page rest o v w' r after) [
        | inl later ↦ scan-hit pages (suc (highest id start page.items)) r v w' later
        | inr here ↦
            let (a, t, on_page, hit) =
              scan_items-hit body page.items r u w' (cc (items, here.0, here.1)) in
            (a, t, (start, page, w, u, got, on_page), hit)
      ]
