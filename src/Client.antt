-- ===== src/Client.antt =====
-- `build_client` of src/agent.rs: the agent speaks HTTPS, unless it is told otherwise.
use beacon_alerts.Prelude.{ℕ, String, Bool, ◌&&◌, ◌||◌, leb, Option, none, some, ◌==◌}
use beacon_alerts.Fallible.{
  Result, ok, ◌>>=◌, ◌>>◌, guard, or_fail, io_failed, invalid_url, insecure_url, client_failed,
}

-- `StatusCode::is_success`
abbrev pub is_success : ℕ → Bool
is_success status = leb 200 status && leb status 299

-- What the code asks of `reqwest` and of the files of certificates: the scheme of a URL, the text
-- of a file, whether that is a certificate, and whether a client can be built.
pub record ClientLibrary : Type 0 where
  pub scheme : String → Option String
  pub read : String → Option String
  pub is_certificate : String → Bool
  pub builds : Bool

module _ (lib : ClientLibrary) where
  abbrev pub check_certificate : Option String → Result (Unit {0})
  check_certificate none = ok tt
  check_certificate (some path) = do
    pem ← or_fail (lib.read path) io_failed
    guard (lib.is_certificate pem) client_failed

  unfoldable pub build_client : String → Option String → Bool → Result (Unit {0})
  build_client server ca_file allow_http = do
    scheme ← or_fail (lib.scheme server) invalid_url
    guard (scheme == "https" || allow_http) insecure_url
    check_certificate ca_file
    guard lib.builds client_failed
