-- ===== src/Account/Pages.antt =====
-- internal/account/service.go, GetHistory: the limits of a page.
use defi_demo.Base.{◌≡◌, arith}
use defi_demo.Base.Int.{ℤ, pos, ◌≤ℤ◌, ◌<ℤ◌}
use defi_demo.Account.{page_limit, page_offset}

-- Whatever limit and offset are asked for, the page has from 1 to 100 entries and an offset that is
-- not negative, and a page that was clamped is not changed by clamping it again.
pub page-range :
    (limit offset : ℤ)
    → (pos 0 <ℤ page_limit limit)
      × (page_limit limit ≤ℤ pos 100)
      × (pos 0 ≤ℤ page_offset offset)
      × (page_limit (page_limit limit) ≡ page_limit limit)
      × (page_offset (page_offset offset) ≡ page_offset offset)
unfolding page_limit page_offset
page-range limit offset = (ground arith, ground arith, ground arith, ground arith, ground arith)
