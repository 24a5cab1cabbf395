-- ===== src/Api/Page.antt =====
-- internal/api/service/common.go; a page or a size is an int.
use address_monitor.Prelude.{ℕ, ◌||◌, if◌then◌else◌, ltb}
use address_monitor.Prelude.Int.{ℤ, pos, negsuc}

abbrev pub page_of : ℤ → ℕ
page_of (pos n) = if ltb n 1 then 1 else n
page_of (negsuc n) = 1

abbrev pub size_of : ℤ → ℕ
size_of (pos n) = if ltb n 1 || ltb 100 n then 20 else n
size_of (negsuc n) = 20

unfoldable pub normalize_page : ℤ → ℤ → ℕ × ℕ
normalize_page page size = (page_of page, size_of size)
