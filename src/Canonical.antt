-- ===== src/Canonical.antt =====
-- firmware/src/canonical.h: `toUpper` and `canonicalString`, the text that signs a request.
-- `std::to_string` of an `int64_t` writes what `jsonInt` writes.
pub mod Unambiguous
use presence_platform.Prelude.{ℕ, ◌-◌, ◌&&◌, [], ◌∷◌, ◌++◌, Bytes, codes, leb, if◌then◌else◌}
use presence_platform.Decimal.{json_int}

unfoldable pub to_upper : Bytes → Bytes
to_upper [] = []
to_upper (c ∷ cs) =
    let rest = to_upper cs in if leb b'a' c && leb c b'z' then (c - 32) ∷ rest else c ∷ rest

-- The time is given as its 64-bit pattern.
unfoldable pub canonical_string : Bytes → Bytes → ℕ → Bytes → Bytes → Bytes
canonical_string method path timestamp_ms nonce body_sha256_hex =
    codes "v1\n"
    ++ (to_upper method
        ++ (codes "\n"
            ++ (path
                ++ (codes "\n"
                    ++ (json_int timestamp_ms
                        ++ (codes "\n" ++ (nonce ++ (codes "\n" ++ body_sha256_hex))))))))
