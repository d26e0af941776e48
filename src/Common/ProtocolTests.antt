-- ===== src/Common/ProtocolTests.antt =====
-- A challenge that a second document replaces, and a proxy URL.
use browser_hive_rs.Base.{ℕ, ◌==◌, ◌≡◌, refl, true, false, none, some, List, [], ◌∷◌}
use browser_hive_rs.Base.Text.{codes}
use browser_hive_rs.Base.Result.{ok}
use browser_hive_rs.Common.Challenge.{
  MainDocument, ChallengeDetector, ChallengeOutcome, Round, wait_out_challenge, is_challenge,
}
use browser_hive_rs.Common.Challenge.Verdict.{
  verdict, within, documents, wait_out_challenge-verdict,
}
use browser_hive_rs.Base.Strings.{find}
use browser_hive_rs.Common.Proxy.{
  strip_credentials_from_url, ProxyScheme, ProxyConfig, get_credentials, build_proxy_server,
}
use browser_hive_rs.Common.Proxy.Credentials.{credentials_are_split}

abbrev document : ℕ → MainDocument
document status = record { status = status; headers = []; url = codes "u" }

-- A detector that takes every document with status 403 for a challenge.
abbrev pub forbidden : ChallengeDetector
forbidden doc = doc.status == 403

abbrev pub round : ℕ → ℕ → ℕ → Round
round seq status elapsed = record {
  is_cancelled = false;
  latest = some (record { seq = seq; is_loaded = true; doc = document status });
  elapsed = elapsed;
}

abbrev pub replaced : List Round
replaced = round 1 403 0 ∷ round 1 403 5 ∷ round 2 200 9 ∷ round 2 200 12 ∷ []

wait_out_challenge-verdict_example :
    wait_out_challenge (forbidden ∷ []) 10 replaced
    ≡ some (ok (verdict (forbidden ∷ []) (documents (within 10 replaced))))
wait_out_challenge-verdict_example =
    wait_out_challenge-verdict (forbidden ∷ []) 10 replaced refl (refl, (refl, (refl, (refl, tt))))

-- The challenge of that run passes.
replaced_passes :
    wait_out_challenge (forbidden ∷ []) 10 replaced ≡ some (ok ChallengeOutcome.passed)
unfolding wait_out_challenge is_challenge
replaced_passes = refl

-- `http://ab:c@h`.
abbrev pub proxied : ProxyConfig
proxied = record {
  proxy_url = some (codes "http://ab:c@h");
  scheme = ProxyScheme.http;
  address = none;
  port = none;
  username = none;
  password = none;
}

credentials_are_split_example :
    (get_credentials proxied ≡ ok (some (codes "ab", codes "c")))
    × (build_proxy_server proxied ≡ some (codes "http://h"))
credentials_are_split_example =
    credentials_are_split (codes "http") (codes "ab") (codes "c") (codes "h")
      (refl, (refl, (refl, (refl, tt)))) (refl, (refl, (refl, (refl, tt)))) (refl, (refl, tt))
      (refl, (refl, tt)) (refl, tt) proxied refl

-- A password with an at sign is cut, and its rest stays in the server.
abbrev pub odd_password : ProxyConfig
odd_password = record proxied { proxy_url = some (codes "http://u:p@q@h") }

rest_leaks : build_proxy_server odd_password ≡ some (codes "http://q@h")
unfolding build_proxy_server strip_credentials_from_url find
rest_leaks = refl
