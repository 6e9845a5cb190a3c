-- ===== src/Reads/Follow.antt =====
-- A client of backend/ledgerloop/api/routes_read.py that follows next_cursor through the feed, or through
-- the queue of cases.
use ledger_loop.Prelude.{
  ◌^◌, true, ℕ, zero, suc, ◌+◌, ◌≤◌, ◌<◌, ◌≡◌, refl, sym, ap, ◌∙◌, Option, none, some, List, [],
  ◌∷◌, ◌++◌, map, arith, length, filter, filter_map, ℤ, pos, Falling, Falling-lt, In-filter,
}
use mathlib.Core.Option
use mathlib.Core.Option.{some-injective}
use ledger_loop.Enums.{ReconStatus}
use ledger_loop.Text.{Text, str_of}
use ledger_loop.Text.Decimal.{int_of-str_of}
use ledger_loop.Store.{ReconciliationResult, ExceptionRow, Db}
use ledger_loop.Tenancy.{Tenant}
use ledger_loop.Queries.{
  Loaded, load, before, result_wanted, fetch_results_page, CaseStatus, case_wanted, case_key,
  with_result, fetch_exceptions_page,
}
use ledger_loop.Queries.Keyset.{page, PageOf, page-PageOf, get_elem-In, map-append}
use ledger_loop.Queries.Walk.{turn, walk, walk-rows}
use ledger_loop.Queries.Feeds.{Feeds}
use ledger_loop.Queries.Pages.{
  feed_rows-Falling, fetch_results_page-page, length-feed_rows, queue_rows-Falling,
  fetch_exceptions_page-page, length-queue_rows, map_id,
}
use ledger_loop.Webhooks.{Answer, answered, http_exception, server_error}
use ledger_loop.Reads.{
  Page, in_bigint, parse_cursor, result_out, exception_out, list_transactions, list_exceptions,
}

abbrev onward {ℓ} : {A : Type ℓ} → List A → Option Text → (Text → Option (List A)) → Option (List A)
onward items none next = some items
onward items (some cursor) next = Option.map (λ rest. items ++ rest) (next cursor)

abbrev read_page : {A : Type 0} → Answer (Page A) → (Text → Option (List A)) → Option (List A)
read_page (answered p) next = onward p.items p.next_cursor next
read_page (http_exception code detail) next = none
read_page server_error next = none

-- The client: none where its fuel runs out before the last page, or where a page is refused.
unfoldable pub browse :
    {A : Type 0} → ℕ → (Option Text → Answer (Page A)) → Option Text → Option (List A)
browse zero route cursor = none
browse (suc fuel) route cursor = read_page (route cursor) (λ c. browse fuel route (some c))

module _ {A B C : Type 0} (key : A → ℕ) (f : A → B) (out : B → C) (n k : ℕ) (rows : List A)
    (fall : Falling key n rows) (fits : n ≤ 2 ^ 63) (exotic : Text → Option ℤ)
    (fetch : Option ℤ → List B × Option ℕ)
    (fetches : (cursor : Option ℤ)
      → let p = page key (suc k) (filter (before key cursor) rows) in
        fetch cursor ≡ (map f p.0, p.1))
    (route : Option Text → Answer (Page C))
    (routes : (t : Option Text) (cursor : Option ℤ)
      → parse_cursor exotic t ≡ some cursor
      → in_bigint cursor ≡ true
      → route t
        ≡ answered (record {
          items = map out (fetch cursor).0;
          next_cursor = Option.map str_of (fetch cursor).1;
        })) where
  -- A cursor that a page hands out is an id.
  cursor_fits : (cursor : Option ℤ) (i : ℕ) → (fetch cursor).1 ≡ some i → i < 2 ^ 63
  cursor_fits cursor i e =
      let xs = filter (before key cursor) rows in
      let paged = ap (λ (p : List B × Option ℕ). p.1) (fetches cursor) in
      elim (page-PageOf key k xs) [
        | PageOf.last short q ↦ absurd (cc (sym e ∙ paged ∙ ap (λ (p : List A × Option ℕ). p.1) q))
        | PageOf.more long x there q ↦
            let same : i ≡ key x =
              some-injective _ _ (sym e ∙ paged ∙ ap (λ (p : List A × Option ℕ). p.1) q) in
            let stored = (In-filter (before key cursor) x rows (get_elem-In k x xs there)).0 in
            omega (arith, same, Falling-lt key n x rows fall stored, fits)
      ]

  parse-str_of : (i : ℕ) → i < 2 ^ 63 → parse_cursor exotic (some (str_of i)) ≡ some (some (pos i))
  unfolding parse_cursor
  parse-str_of i h = rw (parse_cursor, int_of-str_of exotic i (omega (arith, h))) refl

  joined :
      (items : List B) (rest : Option (List B))
      → Option.map (λ r. map out items ++ r) (Option.map (map out) rest)
        ≡ Option.map (map out) (Option.map (λ r. items ++ r) rest)
  joined items none = refl
  joined items (some r) = ap some (sym (map-append out items r))

  onward-turn :
      (fuel : ℕ) (items : List B) (next : Option ℕ)
      → ((i : ℕ) → next ≡ some i → i < 2 ^ 63)
      → ((i : ℕ)
          → i < 2 ^ 63
          → browse fuel route (some (str_of i))
            ≡ Option.map (map out) (walk fuel fetch (some (pos i))))
      → onward (map out items) (Option.map str_of next) (λ c. browse fuel route (some c))
        ≡ Option.map (map out) (turn (items, next) (λ i. walk fuel fetch (some (pos i))))
  onward-turn fuel items none h rec = refl
  onward-turn fuel items (some i) h rec =
      ap (Option.map (λ rest. map out items ++ rest)) (rec i (h i refl))
      ∙ joined items (walk fuel fetch (some (pos i)))

  -- The texts of the cursors do what the cursors do.
  browse-walk :
      (fuel : ℕ) (t : Option Text) (cursor : Option ℤ)
      → parse_cursor exotic t ≡ some cursor
      → in_bigint cursor ≡ true
      → browse fuel route t ≡ Option.map (map out) (walk fuel fetch cursor)
  unfolding browse walk
  browse-walk zero t cursor e b = refl
  browse-walk (suc fuel) t cursor e b =
      ap (λ a. read_page a (λ c. browse fuel route (some c))) (routes t cursor e b)
      ∙ onward-turn fuel (fetch cursor).0 (fetch cursor).1 (cursor_fits cursor) (λ i h.
        browse-walk fuel (some (str_of i)) (some (pos i)) (parse-str_of i h) (ground (arith, h)))

  browse-rows :
      (fuel : ℕ) → length rows < fuel → browse fuel route none ≡ some (map out (map f rows))
  unfolding parse_cursor
  browse-rows fuel h =
      browse-walk fuel none none start refl
      ∙ ap (Option.map (map out))
          (walk-rows key f n k rows fall fetch fetches fuel none rows (before_all rows) h)
    where
      start : parse_cursor exotic none ≡ some none
      start = refl

      before_all : (xs : List A) → filter (before key none) xs ≡ xs
      before_all [] = refl
      before_all (x ∷ xs) = ap (λ t. x ∷ t) (before_all xs)

-- Following next_cursor from the first page of the feed, at any page size from 1 on, ends within one
-- request more than there are results, none of them refused, and has then read the account's results of the
-- wanted status, each once and newest first, and no others; given that ids fall (Feeds) and are
-- BIGINTs.
pub list_transactions-browse :
    (exotic : Text → Option ℤ) (tenant : Tenant) (status : Option ReconStatus) (limit : ℕ) (db : Db)
    → 1 ≤ limit
    → Feeds db
    → db.next_result ≤ 2 ^ 63
    → browse (length db.results + 1) (λ t. list_transactions exotic tenant status limit t db) none
      ≡ some (map result_out (map (load db) (filter (result_wanted tenant status) db.results)))
unfolding list_transactions
list_transactions-browse exotic tenant status zero db h v b = absurd (omega arith)
list_transactions-browse exotic tenant status (suc k) db h v b =
    browse-rows (λ (r : ReconciliationResult). r.id) (load db) result_out db.next_result k
      (filter (result_wanted tenant status) db.results) (feed_rows-Falling tenant status k db v) b
      exotic (λ cursor. fetch_results_page tenant status (suc k) cursor db)
      (fetch_results_page-page tenant status k db v)
      (λ t. list_transactions exotic tenant status (suc k) t db)
      (λ t cursor e b. rw (list_transactions, e, b) refl) (length db.results + 1)
      (length-feed_rows tenant status k db v)

-- Following next_cursor from the first page of the queue, at any page size from 1 on, ends within one
-- request more than there are cases, none of them refused, and has then read the account's cases of the wanted
-- state, each once and newest first, joined with their results; given that ids fall (Feeds) and are
-- BIGINTs.
pub list_exceptions-browse :
    (exotic : Text → Option ℤ) (tenant : Tenant) (status : Option CaseStatus) (limit : ℕ) (db : Db)
    → 1 ≤ limit
    → Feeds db
    → db.next_exception ≤ 2 ^ 63
    → browse (length db.exceptions + 1) (λ t. list_exceptions exotic tenant status limit t db) none
      ≡ some (
          map
            (λ p. exception_out p.0 p.1)
            (filter_map (with_result db) (filter (case_wanted tenant status) db.exceptions)))
unfolding list_exceptions
list_exceptions-browse exotic tenant status zero db h v b = absurd (omega arith)
list_exceptions-browse exotic tenant status (suc k) db h v b =
    browse-rows case_key (λ p. p) (λ p. exception_out p.0 p.1) db.next_exception k
      (filter_map (with_result db) (filter (case_wanted tenant status) db.exceptions))
      (queue_rows-Falling tenant status k db v) b exotic
      (λ cursor. fetch_exceptions_page tenant status (suc k) cursor db)
      (fetch_exceptions_page-page tenant status k db v)
      (λ t. list_exceptions exotic tenant status (suc k) t db)
      (λ t cursor e b. rw (list_exceptions, e, b) refl) (length db.exceptions + 1)
      (length-queue_rows tenant status k db v)
    ∙ ap (λ ps. some (map (λ (p : ExceptionRow × Loaded). exception_out p.0 p.1) ps)) (map_id _)
