-- ===== src/Tests/SolverTests.antt =====
-- Providers: the preference between two small ones.
use apk_tools.Prelude.Order.{flip}
use apk_tools.Blob.{blob}
use apk_tools.Solver.{Flags, Candidate, Offer, compare_providers}
use apk_tools.Prelude.{◌≡◌, false, codes, some, true, arith}
use apk_tools.Solver.Laws.{compare_providers-flip}

abbrev no_flags : Flags
no_flags = record {
  upgrade = false;
  available = false;
  reinstall = false;
  latest = false;
  installed = false;
  remove = false;
}

abbrev old_zlib : Candidate
old_zlib = record {
  name = codes "zlib";
  version = blob (codes "1.2");
  has_ipkg = true;
  provider_priority = 0;
  repos = 2;
  solver_flags = no_flags;
  pinning_allowed = 1;
  conflicts = 0;
  pkg_available = true;
  pkg_selectable = true;
  tag_ok = true;
  tag_preferred = false;
  dependencies_used = false;
}

abbrev new_zlib : Candidate
new_zlib = record old_zlib { version = blob (codes "1.3"); has_ipkg = false; repos = 4 }

abbrev old_offer : Offer
old_offer = record { pkg = some old_zlib; version = blob (codes "1.2") }

abbrev new_offer : Offer
new_offer = record { pkg = some new_zlib; version = blob (codes "1.3") }

compare_providers-flip_example :
    compare_providers false new_offer old_offer ≡ flip (compare_providers false old_offer new_offer)
compare_providers-flip_example =
    compare_providers-flip false old_offer new_offer (omega arith) (omega arith)
