-- ===== src/Api/Missing/Paging.antt =====
-- The loop over the pages ends, and which hashes it collects.
use go_waku.Base.Text.{Text}
use go_waku.Api.Missing.Pages.{Pages}
