-- ===== src/Tests/Requests.antt =====
-- The signed text of a request.
use presence_platform.Prelude.{◌≡◌, refl, lacks, codes}
use presence_platform.Decimal.{json_int}
use presence_platform.Canonical.{to_upper, canonical_string}
use presence_platform.Canonical.Unambiguous.{OneLine, canonical_unambiguous}

heartbeat : OneLine (codes "post") (codes "/v1/device/heartbeat") (codes "n1")
unfolding lacks
heartbeat = record { method_line = refl; path_line = refl; nonce_line = refl }

heartbeat_upper : OneLine (codes "POST") (codes "/v1/device/heartbeat") (codes "n1")
unfolding lacks
heartbeat_upper = record { method_line = refl; path_line = refl; nonce_line = refl }

same_text :
    canonical_string (codes "post") (codes "/v1/device/heartbeat") 17 (codes "n1") (codes "ab")
    ≡ canonical_string (codes "POST") (codes "/v1/device/heartbeat") 17 (codes "n1") (codes "ab")
unfolding canonical_string to_upper
same_text = refl

canonical_unambiguous_example :
    (to_upper (codes "post") ≡ to_upper (codes "POST"))
    × (codes "/v1/device/heartbeat" ≡ codes "/v1/device/heartbeat")
    × (json_int 17 ≡ json_int 17)
    × (codes "n1" ≡ codes "n1")
    × (codes "ab" ≡ codes "ab")
canonical_unambiguous_example =
    canonical_unambiguous (codes "post") (codes "/v1/device/heartbeat") (codes "n1") (codes "ab")
      (codes "POST") (codes "/v1/device/heartbeat") (codes "n1") (codes "ab") 17 17 heartbeat
      heartbeat_upper same_text
