-- ===== src/Signature/Tests.antt =====
-- Runs and witnesses for src/signature.cpp.
use tombstack_native.Prelude.{◌≡◌, refl, length, All, codes, starts_with}
use tombstack_native.Signature.Sha256.{sha256_raw}
use tombstack_native.Signature.Hex.{IsHex, compute_crash_signature-IsHex}
use tombstack_native.Signature.{sha256_hex, hmac_sha256_hex, compute_crash_signature}

-- the test vectors of FIPS 180-4
abc :
    sha256_hex (codes "abc")
    ≡ codes "ba7816bf8f01cfea414140de5dae2223b00361a396177a9cb410ff61f20015ad"
unfolding sha256_hex
abc = refl

two_blocks :
    sha256_hex (codes "abcdbcdecdefdefgefghfghighijhijkijkljklmklmnlmnomnopnopq")
    ≡ codes "248d6a61d20638b8e5c026930c3e6039a33ce45964ff2167f6ecedd419db06c1"
unfolding sha256_hex
two_blocks = refl

-- a test case of RFC 4231
jefe :
    hmac_sha256_hex (codes "Jefe") (codes "what do ya want for nothing?")
    ≡ codes "5bdcc146bf60754e6a042426089575c75a003f089d2739839dec58b964ec3843"
unfolding hmac_sha256_hex sha256_raw
jefe = refl

-- Paths and blank lines of a trace do not count.
same_bug :
    compute_crash_signature (codes "Crash") (codes "f (at a.cpp:1)\n\n g (at b.cpp:2)")
    ≡ compute_crash_signature (codes "Crash") (codes "f (at x.cpp:9)\r\ng")
unfolding compute_crash_signature starts_with
same_bug = refl

compute_crash_signature-IsHex_example :
    All IsHex (compute_crash_signature (codes "Crash") (codes "f (at a.cpp:1)"))
    × (length (compute_crash_signature (codes "Crash") (codes "f (at a.cpp:1)")) ≡ 32)
compute_crash_signature-IsHex_example =
    compute_crash_signature-IsHex (codes "Crash") (codes "f (at a.cpp:1)")
