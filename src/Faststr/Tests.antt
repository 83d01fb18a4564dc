-- ===== src/Faststr/Tests.antt =====
-- Instances of the theorem about folded searches.
use ravenguard.Common.{◌≡◌, refl, true, bytes}
use ravenguard.Faststr.{contains_fold}

finds_upper : contains_fold (bytes "Mozilla SQLMAP/1") (bytes "sqlmap") ≡ true
unfolding contains_fold
finds_upper = refl
