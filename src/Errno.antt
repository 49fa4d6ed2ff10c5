-- ===== src/Errno.antt =====
-- The errno values that the code tests, as Linux numbers them.
use embr.Base.{ℕ}

abbrev pub errno_intr : ℕ
errno_intr = 4

abbrev pub errno_again : ℕ
errno_again = 11

abbrev pub errno_nomem : ℕ
errno_nomem = 12

abbrev pub errno_inval : ℕ
errno_inval = 22

abbrev pub errno_opnotsupp : ℕ
errno_opnotsupp = 95

abbrev pub errno_nobufs : ℕ
errno_nobufs = 105
