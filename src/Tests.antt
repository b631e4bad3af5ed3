-- ===== src/Tests.antt =====
-- The results at concrete inputs.
mod VersionTests
mod BlobTests
mod CodecTests
mod PackageTests
mod SolverTests
mod HashTests
mod PathTests
mod TextTests
mod StoreTests
mod RepoTests
mod IndexTests
mod AdbTests
mod AdbParseTests
mod AdbValueTests
