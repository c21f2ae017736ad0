-- ===== src/Stock/Upsert/Provenance.antt =====
-- stock_service.py, `upsert_daily_figure`: how a row comes to be a manual correction.
use daily_figures.Stock.Database.{Database}
