-- ===== src/Rpc/Channelz/Paging.antt =====
-- The pages of a listing, for a server that lists a fixed sequence with ascending numbers, as the protocol
-- of channelz documents it: framework/rpc/grpc_channelz.py.
use psm_interop.Errors.{Exception}
use psm_interop.Common.{
  Option, none, some, sym, ◌∙◌, subst, leb→le, Bool, true, false, if◌then◌else◌, ℕ, zero, suc, ◌≤◌,
  ◌<◌, ◌≡◌, refl, ap, List, [], ◌∷◌, ◌++◌, arith, leb, length,
}
use psm_interop.Common.Effects.{Outcome, returned, raised, Effect, pure, continue, ◌>>=◌}
use psm_interop.Rpc.Channelz.Ascending.{
  take, drop, take-all, take-some, take-drop, length-drop, not_leb, above, Ascending,
  above-Ascending, above-rest,
}
use psm_interop.Rpc.Channelz.{
  Page, Scan, found, finished, scan_items, or_on, after_page, scan, highest,
}

module _ {W A R : Type 0} (body : A → Effect W Exception (Option R)) where
  scan_items-append :
      (xs ys : List A) (w : W)
      → scan_items body (xs ++ ys) w ≡ (scan_items body xs >>= or_on (scan_items body ys)) w
  unfolding scan_items
  scan_items-append [] ys w = refl
  scan_items-append (a ∷ xs) ys w = split (body a w).0 (body a w).1 (scan_items-append xs ys)
    where
      split :
          (o : Outcome Exception (Option R)) (u : W)
          → ((v : W)
              → scan_items body (xs ++ ys) v
                ≡ (scan_items body xs >>= or_on (scan_items body ys)) v)
          → continue o (or_on (scan_items body (xs ++ ys))) u
            ≡ (continue o (or_on (scan_items body xs)) >>= or_on (scan_items body ys)) u
      split (returned none) u k = k u
      split (returned (some r)) u k = refl
      split (raised e) u k = refl

  abbrev pub ended : Option R → Effect W Exception (Scan R)
  ended none = pure finished
  ended (some r) = pure (found r)

  -- One loop over a whole sequence.
  abbrev pub scan_all : List A → Effect W Exception (Scan R)
  scan_all items = do r ← scan_items body items; ended r

module _ {W A R : Type 0} (id : A → ℕ) (get_page : (start : ℕ) → Effect W Exception (Page A))
    (body : A → Effect W Exception (Option R)) (page : Page A)
    (next : Effect W Exception (Scan R)) where
  page-last :
      page.last ≡ true
      → (o : Outcome Exception (Option R)) (u : W)
      → continue o (after_page id get_page body page next) u ≡ continue o (ended body) u
  page-last e (returned none) u = ap (λ b. (if b then pure finished else next) u) e
  page-last e (returned (some r)) u = refl
  page-last e (raised x) u = refl

  page-more :
      (ys : List A)
      → page.last ≡ false
      → ((v : W) → next v ≡ scan_all body ys v)
      → (o : Outcome Exception (Option R)) (u : W)
      → continue o (after_page id get_page body page next) u
        ≡ (continue o (or_on (scan_items body ys)) >>= ended body) u
  page-more ys e k (returned none) u = ap (λ b. (if b then pure finished else next) u) e ∙ k u
  page-more ys e k (returned (some r)) u = refl
  page-more ys e k (raised x) u = refl

-- The server answers with at most `size` of the items from a start on, and says whether these are the last.
module _ {A : Type 0} (id : A → ℕ) (all : List A) (size : ℕ → ℕ) where
  abbrev pub page_of : (start : ℕ) → Page A
  page_of start = record {
    items = take (size start) (above id start all);
    last = leb (length (above id start all)) (size start);
  }

  abbrev pub Lists : {W : Type 0} (get_page : (start : ℕ) → Effect W Exception (Page A)) → Type 0
  Lists {W} get_page = (start : ℕ) (w : W) → get_page start w ≡ (returned (page_of start), w)

  module _ {W R : Type 0} (get_page : (start : ℕ) → Effect W Exception (Page A))
      (body : A → Effect W Exception (Option R)) where
    scan_rest :
        (pages start : ℕ) (w : W)
        → Lists get_page
        → Ascending id 0 all
        → ((start : ℕ) → 1 ≤ size start)
        → length (above id start all) < pages
        → scan id get_page body pages start w ≡ scan_all body (above id start all) w
    unfolding scan above
    scan_rest zero start w lists h sizes p = absurd (omega (arith, p))
    scan_rest (suc pages) start w lists h sizes p =
        ap
          (λ got.
            continue got.0
              (λ page. (scan_items body page.items) >>= (λ r.
                after_page id get_page body page
                  (scan id get_page body pages (suc (highest id start page.items))) r))
              got.1)
          (lists start w)
        ∙ split (leb (length rest) (size start)) refl
            (λ v q. scan_rest pages next v lists h sizes q)
      where
        rest : List A
        rest = above id start all

        items : List A
        items = take (size start) rest

        next : ℕ
        next = suc (highest id start items)

        split :
            (b : Bool)
            → (page_of start).last ≡ b
            → ((v : W)
                → length (above id next all) < pages
                → scan id get_page body pages next v ≡ scan_all body (above id next all) v)
            → (scan_items body items
                  >>= after_page id get_page body
                      (page_of start)
                      (scan id get_page body pages next))
                w
              ≡ scan_all body rest w
        split true e k =
            page-last id get_page body (page_of start) (scan id get_page body pages next) e
              (scan_items body items w).0 (scan_items body items w).1
            ∙ ap (λ xs. scan_all body xs w)
                (take-all (size start) rest (leb→le (length rest) (size start) e))
        split false e k =
            page-more id get_page body (page_of start) (scan id get_page body pages next) others e
              (λ v.
                k v (
                  subst (λ xs. length xs < pages) (sym left)
                    (omega (arith, length-drop (size start) rest more (sizes start), p)))
                ∙ ap (λ xs. scan_all body xs v) left)
              (scan_items body items w).0 (scan_items body items w).1
            ∙ ap (λ out. continue out.0 (ended body) out.1)
                (sym (scan_items-append body items others w))
            ∙ ap (λ xs. scan_all body xs w) (take-drop (size start) rest)
          where
            more : size start < length rest
            more = not_leb (length rest) (size start) e

            others : List A
            others = drop (size start) rest

            left : above id next all ≡ others
            left =
                above-rest id start all items others h (take-drop (size start) rest)
                  (take-some (size start) rest (sizes start) more)

    -- For a server that lists a fixed sequence with ascending numbers, in pages that are not empty before the
    -- last one, a loop over its pages comes to an end, and does what one loop over the sequence does: it is
    -- enough to follow one page more than there are items.
    pub scan-eq-scan_all :
        (pages : ℕ) (w : W)
        → Lists get_page
        → Ascending id 0 all
        → ((start : ℕ) → 1 ≤ size start)
        → length all < pages
        → scan id get_page body pages 0 w ≡ scan_all body all w
    scan-eq-scan_all pages w lists h sizes p =
        let whole = above-Ascending id 0 0 all h (omega arith) in
        scan_rest pages 0 w lists h sizes (subst (λ xs. length xs < pages) (sym whole) p)
        ∙ ap (λ xs. scan_all body xs w) whole
