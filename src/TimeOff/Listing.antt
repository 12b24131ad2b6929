-- ===== src/TimeOff/Listing.antt =====
-- src/modules/timeoff/timeoff.service.js, `listRequests`: the requests that pass the filters, newest
-- first and page by page. `parseInt` of `limit` and `offset` has been done, and gave a number; a
-- filter that is missing or empty is `none`. The creation time is kept by the ORM, and a parameter.
use leave_ledger.Common.{
  ℕ, zero, suc, ◌+◌, ◌*◌, ◌≤◌, ◌<◌, min, ◌≡◌, refl, ap, sym, ◌∙◌, String, Bool, true, ◌&&◌, Option,
  none, some, List, [], ◌++◌, map, arith, length, keep, take, drop, slices, slices_all,
  length-slices, length-drop, length-perm, ◌≢◌, Pairs, subst, length-append, length-take,
  length-map,
}
use leave_ledger.Common.Eq.{◌==◌, String-Eq, ℕ-Eq}
use leave_ledger.Constants.{RequestStatus, RequestStatus-Eq}
use leave_ledger.Database.Paged.{Paged, NewestFirst}
use leave_ledger.Database.Ordered.{one_of_key, newest_first_unique}
use leave_ledger.Entities.Sets.{TimeOffRequest_set}
use leave_ledger.Entities.{TimeOffRequest, Response, serialize_request}
use leave_ledger.Store.{RequestRepository}
use mathlib.Core.List.{Perm, map-append}
use mathlib.Core.List.Perm

pub record Filters : Type 0 where
  pub employee_id : Option String
  pub location_id : Option String
  pub status : Option RequestStatus
  pub limit : Option ℕ
  pub offset : Option ℕ

-- What `listRequests` returns.
pub record Page : Type 0 where
  pub data_page : List Response
  pub total : ℕ
  pub limit : ℕ
  pub offset : ℕ

-- `where`, as it is built from the filters.
unfoldable pub matches : Filters → TimeOffRequest → Bool
matches f r =
    elim f.employee_id [ none ↦ true | some e ↦ e == r.employee_id ]
    && elim f.location_id [ none ↦ true | some l ↦ l == r.location_id ]
    && elim f.status [ none ↦ true | some s ↦ s == r.status ]

module _ (R : RequestRepository) (created_at : TimeOffRequest → ℕ) (Q : Paged R created_at) where
  -- listRequests
  unfoldable pub list_requests : Filters → R.Table → Page
  unfolding matches
  list_requests f t =
      let limit : ℕ = elim f.limit [ none ↦ 50 | some l ↦ l ] in
      let offset : ℕ = elim f.offset [ none ↦ 0 | some o ↦ o ] in
      let (requests, total) = Q.find_and_count (matches f) (min limit 100) offset t in
      record {
        data_page = map serialize_request requests;
        total = total;
        limit = limit;
        offset = offset;
      }

  -- A client that reads `n` pages from an offset on, and adds `step` to the offset after each.
  abbrev pub read_pages : ℕ → ℕ → Filters → ℕ → R.Table → List Response
  read_pages zero step f offset t = []
  read_pages (suc n) step f offset t =
      (list_requests (record f { offset = some offset }) t).data_page
      ++ read_pages n step f (offset + step) t

  -- The matching requests as one query orders them.
  wanted :
      (f : Filters) (t : R.Table)
      → (xs : List TimeOffRequest) × Perm xs (keep (matches f) (R.rows t))
        × NewestFirst created_at xs
  wanted f t =
      let (xs, same, newest, answer) = Q.find_and_count-rows (matches f) 0 0 t in (xs, same, newest)

  -- The order of a page's query: some order of the matching requests, newest first.
  page-slice :
      (f : Filters) (l offset : ℕ) (t : R.Table)
      → f.limit ≡ some l
      → (xs : List TimeOffRequest) × Perm xs (keep (matches f) (R.rows t))
        × NewestFirst created_at xs
        × ((list_requests (record f { offset = some offset }) t).data_page
            ≡ map serialize_request (take (min l 100) (drop offset xs)))
  unfolding list_requests matches
  page-slice f l offset t e =
      let (xs, same, newest, answer) = Q.find_and_count-rows (matches f) (min l 100) offset t in
      (xs, same, newest, rw (e, answer) refl)

  -- No two matching requests have the same creation time.
  abbrev pub HasDistinctTimes : Filters → R.Table → Type 0
  HasDistinctTimes f t = Pairs (λ x y. created_at x ≢ created_at y) (keep (matches f) (R.rows t))

  one_order :
      (f : Filters) (t : R.Table) (xs ys : List TimeOffRequest)
      → HasDistinctTimes f t
      → Perm xs (keep (matches f) (R.rows t))
      → Perm ys (keep (matches f) (R.rows t))
      → NewestFirst created_at xs
      → NewestFirst created_at ys
      → xs ≡ ys
  one_order f t xs ys apart p q h k =
      newest_first_unique TimeOffRequest_set created_at xs ys (Perm.trans p (Perm.symm q)) h k
        (λ x y mx my.
          one_of_key TimeOffRequest_set created_at (keep (matches f) (R.rows t)) x y apart
            ((Perm.mem_iff p).0 mx) ((Perm.mem_iff p).0 my))

  read_pages-slices :
      (n step l : ℕ) (f : Filters) (offset : ℕ) (t : R.Table)
      → f.limit ≡ some l
      → HasDistinctTimes f t
      → read_pages n step f offset t
        ≡ map serialize_request (slices n step (min l 100) offset (wanted f t).0)
  read_pages-slices zero step l f offset t e apart = refl
  read_pages-slices (suc n) step l f offset t e apart =
      let (ws, same, newest) = wanted f t in
      let (xs, p, h, page) = page-slice f l offset t e in
      let one : xs ≡ ws = one_order f t xs ws apart p same h newest in
      let first : (list_requests (record f { offset = some offset }) t).data_page
          ≡ map serialize_request (take (min l 100) (drop offset ws)) =
        subst
          (λ zs.
            (list_requests (record f { offset = some offset }) t).data_page
            ≡ map serialize_request (take (min l 100) (drop offset zs)))
          one page in
      rw (first, read_pages-slices n step l f (offset + step) t e apart)
        (sym (
          map-append serialize_request (take (min l 100) (drop offset ws))
            (slices n step (min l 100) (offset + step) ws)))

  -- A client asks for `l` requests per page and adds the size of a full page, `l` but at most 100, to
  -- the offset after each page, on a table where no two matching requests have the same creation time.
  -- Once it has read enough pages for the number of matching requests, it has exactly those, each as
  -- often as it is in the table, from the newest to the oldest.
  pub read_pages_complete :
      (n l : ℕ) (f : Filters) (t : R.Table)
      → f.limit ≡ some l
      → HasDistinctTimes f t
      → length (keep (matches f) (R.rows t)) ≤ n * min l 100
      → (rs : List TimeOffRequest) × (read_pages n (min l 100) f 0 t ≡ map serialize_request rs)
        × Perm rs (keep (matches f) (R.rows t))
        × NewestFirst created_at rs
  read_pages_complete n l f t e apart h =
      let (ws, same, newest) = wanted f t in
      let all = keep (matches f) (R.rows t) in
      let count = length-perm ws all same in
      let read = slices_all n (min l 100) 0 ws (omega (arith, count, h)) in
      (
        ws,
        read_pages-slices n (min l 100) l f 0 t e apart ∙ ap (map serialize_request) read,
        same,
        newest,
      )

  -- What the answers report: the limit that was asked for, and the number of matching requests.
  list_requests-reports :
      (f : Filters) (l : ℕ) (t : R.Table)
      → f.limit ≡ some l
      → ((list_requests f t).limit ≡ l)
        × ((list_requests f t).total ≡ length (keep (matches f) (R.rows t)))
  unfolding list_requests matches
  list_requests-reports f l t e =
      let (xs, same, newest, answer) =
        Q.find_and_count-rows (matches f) (min (elim f.limit [ none ↦ 50 | some m ↦ m ]) 100)
          (elim f.offset [ none ↦ 0 | some o ↦ o ]) t in
      (rw e refl, ap (λ (a : List TimeOffRequest × ℕ). a.1) answer ∙ length-perm xs _ same)

  -- How many requests the pages hold does not depend on the order of their queries.
  length-read_pages :
      (n step l : ℕ) (f : Filters) (offset : ℕ) (t : R.Table)
      → f.limit ≡ some l
      → length (read_pages n step f offset t)
        ≡ length (slices n step (min l 100) offset (keep (matches f) (R.rows t)))
  length-read_pages zero step l f offset t e = refl
  length-read_pages (suc n) step l f offset t e =
      let all = keep (matches f) (R.rows t) in
      let (xs, same, newest, page) = page-slice f l offset t e in
      let got : List Response = (list_requests (record f { offset = some offset }) t).data_page in
      let held : length got ≡ length (take (min l 100) (drop offset xs)) =
        ap length page ∙ length-map serialize_request (take (min l 100) (drop offset xs)) in
      omega (
        arith,
        held,
        length-read_pages n step l f (offset + step) t e,
        length-append got (read_pages n step f (offset + step) t),
        length-append (take (min l 100) (drop offset all))
            (slices n step (min l 100) (offset + step) all),
        length-take (min l 100) (drop offset xs),
        length-take (min l 100) (drop offset all),
        length-drop offset xs,
        length-drop offset all,
        length-perm xs all same,
      )

  slices_short :
      (n l : ℕ) (rs : List TimeOffRequest)
      → 100 < l
      → 100 < length rs
      → length (slices n l (min l 100) 0 rs) < length rs
  slices_short zero l rs hl h = omega arith
  slices_short (suc n) l rs hl h = omega (
    arith,
    length-append (take (min l 100) rs) (slices n l (min l 100) (0 + l) rs),
    length-take (min l 100) rs,
    length-slices n l (min l 100) (0 + l) rs (omega arith),
    hl,
    h,
  )

  -- A client asks for more than 100 requests per page, and adds the limit that the answer reports to
  -- the offset after each page. If more than 100 requests match, it never gets as many requests as the
  -- answer counts, however many pages it reads.
  pub read_pages-gap :
      (n l : ℕ) (f : Filters) (t : R.Table)
      → f.limit ≡ some l
      → 100 < l
      → 100 < (list_requests f t).total
      → length (read_pages n (list_requests f t).limit f 0 t) < (list_requests f t).total
  read_pages-gap n l f t e hl h =
      let (limit, total) = list_requests-reports f l t e in
      let all = keep (matches f) (R.rows t) in
      let short = slices_short n l all hl (omega (arith, h, total)) in
      rw (limit, total, length-read_pages n l l f 0 t e) short
