-- ===== src/Image/Tests.antt =====
-- Concrete program images for kernel/process.c.
use mars_os.Base.{◌+◌, ◌≡◌, ◌≤◌, refl, true, false, [], ◌∷◌, ◌++◌, length, some, arith}
use mars_os.Base.Text.{codes}
use mars_os.Image.{
  Parsed, parse_user_image_hex, hex_loop, hex_body, skip_ws, str_eq_n, parse_hex_nibble,
  emit_ping_program, emit_exit_only_program, pings,
}
use mars_os.Image.Hex.{
  hex_text, all_bytes, parse_user_image_hex-hex_text, parse_user_image_hex-ends,
}

spaced_image :
    parse_user_image_hex 8 (codes " MARSHEX CD 81") 16
    ≡ some (record { ok = true; code = 0xCD ∷ 0x81 ∷ [] })
unfolding parse_user_image_hex hex_loop hex_body skip_ws str_eq_n parse_hex_nibble
spaced_image = refl

odd_image : parse_user_image_hex 8 (codes "CD8") 16 ≡ some (record { ok = false; code = 0xCD ∷ [] })
unfolding parse_user_image_hex hex_loop hex_body skip_ws str_eq_n parse_hex_nibble
odd_image = refl

one_ping : emit_ping_program 0 ≡ 0xB8 ∷ 17 ∷ 0 ∷ 0 ∷ 0 ∷ 0xCD ∷ 0x80 ∷ emit_exit_only_program
unfolding emit_ping_program pings emit_exit_only_program
one_ping = refl

parse_user_image_hex-hex_text_example :
    parse_user_image_hex 5 (codes "MARSHEX" ++ hex_text (0xCD ∷ 0x81 ∷ [])) 4096
    ≡ some (record { ok = true; code = 0xCD ∷ 0x81 ∷ [] })
parse_user_image_hex-hex_text_example =
    parse_user_image_hex-hex_text (0xCD ∷ 0x81 ∷ []) 5 4096 (unfold all_bytes in refl) (omega arith)
      (omega arith) (omega arith)

parse_user_image_hex-ends_example :
    (r : Parsed) × (parse_user_image_hex (length (codes "12 zz") + 1) (codes "12 zz") 8 ≡ some r)
    × (length r.code ≤ 8)
parse_user_image_hex-ends_example = parse_user_image_hex-ends (codes "12 zz") 8
