-- ===== src/Tests/AdbTests.antt =====
-- A small file and its parts, with a library whose digests are constant and whose signatures are the
-- key.
use apk_tools.Blob.{blob}
use apk_tools.Adb.File.RoundTrip.{__adb_dummy_cb}
use apk_tools.Blob.Digest.{apk_digest_alg_len}
use apk_tools.Adb.Parse.{Parse}
use apk_tools.Adb.File.{adb_c_adb, adb_trust_write_signatures, adb_m_process, sign_keys, sign_with}
use apk_tools.Prelude.{
  refl, ℕ, Bytes, [], ◌∷◌, length-replicate, arith, some, none, replicate, ap, false, length,
  get_or, sym, ◌==◌, some-injective, ◌≡◌, ◌∙◌, inl, inr,
}
use apk_tools.Errors.{ok, ok-injective, Result, err}
use apk_tools.Adb.Verify.{
  Crypto, TrustKey, Trust, adb_digest_adb, base_alg, calc_digest, apk_digest_calc,
}
use apk_tools.Adb.Verify.Laws.{IsSized}
use apk_tools.Adb.File.Keys.{FitsRoom, IsPair}
use apk_tools.Adb.File.ReadBack.{adb_m_process-adb_c_adb}

abbrev constant : Crypto ℕ
constant = record {
  evp_digest = λ alg b. some (replicate (apk_digest_alg_len alg) 7);
  digest_verify = λ key alg text sig. get_or sig 0 0 == key;
  digest_sign = λ key alg text room. ok (key ∷ []);
}

constant-IsSized : IsSized constant
constant-IsSized alg b md e =
    ap length (sym (some-injective (replicate (apk_digest_alg_len alg) 7) md e))
    ∙ length-replicate {A = ℕ} (apk_digest_alg_len alg) 7

constant-FitsRoom : FitsRoom constant
constant-FitsRoom key text sig e = rw⁻¹ (ok-injective (key ∷ []) sig e) (omega arith)

abbrev some_key : TrustKey ℕ
some_key = record { id = replicate 16 1; priv = 5 }

some_key-IsPair : IsPair constant some_key some_key
some_key-IsPair = (refl, refl, λ text sig e. rw⁻¹ (ok-injective (5 ∷ []) sig e) refl)

abbrev signer : Trust ℕ
signer = record {
  trusted_key_list = some_key ∷ [];
  private_key_list = some_key ∷ [];
  allow_untrusted = false;
}

abbrev small_adb : Bytes
small_adb = replicate 12 0

abbrev contents_of : Result Bytes → Bytes
contents_of (ok b) = b
contents_of (err e) = []

abbrev small_file : Bytes
small_file = contents_of (adb_c_adb constant signer 1 small_adb)

small_file_written : adb_c_adb constant signer 1 small_adb ≡ ok small_file
unfolding adb_c_adb adb_trust_write_signatures adb_digest_adb base_alg calc_digest apk_digest_calc
    sign_keys sign_with
small_file_written = refl

adb_m_process-adb_c_adb_example :
    (p : Parse ℕ) × (adb_m_process constant signer __adb_dummy_cb small_file 0 none 0
      ≡ some (none, p))
    × (p.db ≡ record { adb = blob small_adb; schema = 1 })
adb_m_process-adb_c_adb_example =
    adb_m_process-adb_c_adb constant signer signer 1 0 small_adb (replicate 64 7) small_file 0
      constant-IsSized constant-FitsRoom (unfold apk_digest_alg_len in refl) (omega arith)
      (omega arith) refl (inl refl) (omega arith) refl (omega arith)
      (inr (inl (inl some_key-IsPair))) small_file_written
