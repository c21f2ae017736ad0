-- ===== src/Lib.antt =====
-- Daily Figures: the stock core of a warehouse's daily book, modelled and verified.
--
-- The program keeps the stock of each product as a balance that is carried from period to period, a
-- period being a date with a shift, Day or Night. Finalized entries of the books (dispatches,
-- production, returns) and stock adjustments move it; a row of daily_figures fixes the opening of a
-- period where an operator entered or corrected one. An entry's lock and completion say who works on
-- a product's line, and who has finished it.
--
-- Which file models what (paths from the repository's root):
--  Packaging: webapp/services/packaging.py (normalize, to_base_units, from_base_units) and
--     webapp/models/packaging_rule.py.
--  Records, Records.Books: the columns of webapp/models that the calculation reads or writes, and
--     Product.current_packaging_rule.
--  Stock: webapp/services/stock_service.py. Database holds the tables that the queries read, with
--     the filter of eligible returns of webapp/services/returns_service.py; Queries the sums over the
--     books (dispatch_issued_base_qty and its kin, for one period and for a range of dates); Anchor
--     _is_trusted_anchor and _find_anchor_figure; Carry _movement_between_periods,
--     get_prior_closing_base_qty, closing_base_qty and opening_base_qty_at; View daily_figure_view;
--     Upsert upsert_daily_figure, create_adjustment and delete_adjustment. Window is a reference
--     definition of what moved, by the keys of the periods, which the code does not have.
--  Entry: webapp/services/daily_entry_status_service.py, with acquire_lock, release_lock,
--     claim_completion in its two halves, mark_no_activity, mark_completed_with_data,
--     mark_completed_with_data_if_not_already, takeover_lock, reopen and clear_for_reset; Overview
--     has status_view and bucket_for_date_shift, and History runs of all of them.
--  Production: webapp/services/production_service.py, from build_line to delete_production, and
--     what a finalized record adds to the stock.
--  Cutover: webapp/services/ledger_cutover_service.py, from create_draft to activate_cutover, on
--     the tables of Stock, whose openings an activation writes. Written has the loop over the
--     balances, Order the latest of the activated cutovers, Life the operations as steps.
--  Spares: webapp/services/spare_part_movement_service.py. Spares itself reads the stock of the ledger,
--     Amounts has the numbers and what the database engine does with them, Record the operations that
--     write the ledger; Balance, Cache, Effect and Count have their laws, and Shelf describes each
--     operation by the stocks and caches that it moves.
--  Correction: webapp/services/correction_request_service.py: requests, reviews, and the grant of
--     24 hours with its one use. Sweep has what an expiry changes, Run the operations as events.
--  Dispatching: webapp/services/dispatch_service.py, with create_temporary_customer of
--     webapp/services/customer_service.py. Lines builds and replaces the lines, Recipient resolves who
--     a dispatch goes to, Making makes, readdresses and copies dispatches; Homed is about their
--     category, Number and Made about their numbers, Cycle has the operations as events, Posting
--     what a dispatch takes out of the stock.
--  Merging: resolve_canonical and merge_customers of webapp/services/customer_service.py. Ends is about
--     the loop of the walk, Flat about tables with chains of one link, Run has merges and new customers
--     as events, Resolved where the walks end after a merge.
--  Common: results that raise, integers, Boolean tests, sums over rows and a stable sort.
--
-- How the code corresponds: a table is a list of rows, or a partial function of its unique key; an
-- operation takes the tables and returns the changed tables or the exception. Dates are numbers of
-- days and the text keys of periods are numbers in the same order. Quantities are unbounded
-- integers, as Python's are; those of spare parts are decimals where they are entered and thousandths
-- where they are read, the scale of their columns. Every recursion is on a list or a number; only the
-- walk of resolve_canonical has fuel, two turns more than there are ids, since each turn but the last
-- two puts one more id into the set of those that were seen.
--
-- What stands for code outside the repository: SQLite's strftime('%w', date) and Python's
-- date.weekday() are functions that the definitions take, and the key of a new row is the engine's
-- next_id. Time is an argument. Python's str.strip and str of an integer are functions that the
-- definitions take, and so are the digest of a cutover and the phrase that its activation asks for.
-- The database engine's arithmetic on the cached stock of a spare part, which is floating point, and
-- what a column of three decimals gives back, are functions of which nothing is supposed but, for the
-- exactness of a count, that a number which fits its column is read back.
--
-- Not modelled: the web routes and pages, serialisation for display, reports, administration,
-- notifications, the migration of earlier data, the life cycle of returns, the sales service, the
-- planning and the import of spare parts, and the daily review.
pub mod Common
pub mod Correction
pub mod Cutover
pub mod Dispatching
pub mod Entry
pub mod Merging
pub mod Packaging
pub mod Production
pub mod Records
pub mod Spares
pub mod Stock
