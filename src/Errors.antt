-- ===== src/Errors.antt =====
-- src/apk_defines.h and errno: the errors that the modelled functions return, as negative numbers
-- in the source.
use apk_tools.Prelude.{refl, ◌≡◌, arith, ◌⊎◌, inr, inl}

pub data Error : Type 0 where
  apke_file_unchanged apke_eof apke_dns_fail apke_dns_address_family apke_dns_again : Error
  apke_dns_no_data apke_dns_no_name apke_tls_error apke_tls_server_cert_hostname : Error
  apke_tls_server_cert_untrusted apke_tls_client_cert_untrusted apke_tls_handshake : Error
  apke_url_format apke_http_400_bad_request apke_http_401_unauthorized : Error
  apke_http_403_forbidden apke_http_404_not_found apke_http_405_method_not_allowed : Error
  apke_http_406_not_acceptable apke_http_407_proxy_auth_required apke_http_408_timeout : Error
  apke_http_500_internal_server_error apke_http_501_not_implemented : Error
  apke_http_502_bad_gateway apke_http_503_service_unavailable : Error
  apke_http_504_gateway_timeout apke_http_unknown apke_crypto_error : Error
  apke_crypto_not_supported apke_crypto_key_format apke_signature_gen_failure : Error
  apke_signature_untrusted apke_signature_invalid apke_format_invalid : Error
  apke_format_obsolete apke_format_not_supported apke_pkgname_format : Error
  apke_pkgversion_format apke_dependency_format apke_adb_compression apke_adb_header : Error
  apke_adb_version apke_adb_schema apke_adb_block apke_adb_signature apke_adb_integrity : Error
  apke_adb_no_fromstring apke_adb_limit apke_adb_package_format apke_v2db_format : Error
  apke_v2pkg_format apke_v2pkg_integrity apke_v2ndx_format apke_package_not_found : Error
  apke_package_name_spec apke_index_stale apke_file_integrity apke_cache_not_available : Error
  apke_uvol_not_available apke_uvol_error apke_uvol_root apke_remote_io : Error
  apke_not_extracted apke_repo_syntax apke_repo_keyword apke_repo_variable : Error
  enobufs enametoolong enoent einval eio : Error

-- A value, or an error.
pub data Result {ℓ} (A : Type ℓ) : Type ℓ where
  ok : A → Result A
  err : Error → Result A

infixl 5 ◌>>=◌
abbrev pub ◌>>=◌ {ℓ κ} : {A : Type ℓ} {B : Type κ} → Result A → (A → Result B) → Result B
ok a >>= f = f a
err e >>= f = err e

pub ok->>= {ℓ κ} :
    {A : Type ℓ} {B : Type κ} (r : Result A) (f : A → Result B) (b : B)
    → (r >>= f) ≡ ok b
    → (a : A) × (r ≡ ok a) × (f a ≡ ok b)
ok->>= (ok a) f b e = (a, refl, e)
ok->>= (err x) f b e = absurd (ground (arith, e))

pub ok-injective {ℓ} : {A : Type ℓ} (a b : A) → ◌≡◌ {A = Result A} (ok a) (ok b) → a ≡ b
ok-injective a b e = ground (arith, e)

pub Result-cases {ℓ} :
    {A : Type ℓ} (r : Result A) → ((e : Error) × (r ≡ err e)) ⊎ ((a : A) × (r ≡ ok a))
Result-cases (ok a) = inr (a, refl)
Result-cases (err e) = inl (e, refl)
