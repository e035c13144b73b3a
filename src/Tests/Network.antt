-- ===== src/Tests/Network.antt =====
-- The network layer at small inputs.
use r_exasol.Base.{List, Result, [], arith, codes, ok, refl, some, ℕ, ◌++◌, ◌-◌, ◌^◌, ◌∷◌, ◌≡◌, ◌≤◌}
use r_exasol.Chunk.{Memory}
use r_exasol.Socket.Loopback.{loopback, loopback-Streams}
use r_exasol.Answers.{Thrown}
use r_exasol.Header.{read_http_header}
use r_exasol.Header.Consume.{header_bytes, read_http_header-consumes}
use r_exasol.Header.Stops.{read_http_header-stops}
use r_exasol.Hex.{scan_hex, scan_signed, scan_number, strip_0x, scan_digits, digit_value, to_uint}
use r_exasol.Hex.Digits.{hex_number}

abbrev blank : Memory
blank = λ _. 0

abbrev lines : List (List ℕ)
lines = codes "GET / HTTP/1.1" ∷ codes "Host: x" ∷ []

abbrev body : List ℕ
body = codes "3\r\nabc\r\n"

read_http_header-consumes_example :
    (line : Memory) × (s : List ℕ) × (read_http_header loopback 40 blank
        (header_bytes lines ++ body)
      ≡ some (ok tt, line, s))
    × (s ≡ body)
read_http_header-consumes_example =
    read_http_header-consumes loopback loopback-Streams lines 40 blank (header_bytes lines ++ body)
      body refl (omega arith) (omega arith)

read_http_header-stops_example :
    (result : Result Thrown (Unit {0})) × (line : Memory) × (s : List ℕ) × (read_http_header
        loopback 9 blank body
      ≡ some (result, line, s))
    × ((i : ℕ) → 4096 ≤ i → line i ≡ blank i)
read_http_header-stops_example =
    read_http_header-stops loopback loopback-Streams 9 blank body (omega arith)

abbrev size_text : List ℕ
size_text = codes "1aF"

size_text-value : hex_number size_text ≡ 431
unfolding scan_digits digit_value
size_text-value = refl

prefixed : scan_hex (codes " -0x2 ") ≡ some (2 ^ 32 - 2)
unfolding scan_hex scan_signed scan_number strip_0x scan_digits digit_value to_uint
prefixed = refl
