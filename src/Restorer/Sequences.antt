-- ===== src/Restorer/Sequences.antt =====
-- cmd/hoot/attach_restorer.go: the sequences that Cleanup always writes, in their order, and the
-- restorer that only shows the cursor.
use hootty.Base.{Bool, List, [], ◌∷◌, Bytes}
use hootty.Io.{File, write_file}
use hootty.Stripper.Query.{esc}

abbrev pub osc_progress_clear : Bytes
osc_progress_clear = esc ∷ b']' ∷ b'9' ∷ b';' ∷ b'4' ∷ b';' ∷ b'0' ∷ b';' ∷ 0x07 ∷ []

abbrev pub mouse_x_10_off : Bytes
mouse_x_10_off = esc ∷ b'[' ∷ b'?' ∷ b'9' ∷ b'l' ∷ []

abbrev pub mouse_normal_off : Bytes
mouse_normal_off = esc ∷ b'[' ∷ b'?' ∷ b'1' ∷ b'0' ∷ b'0' ∷ b'0' ∷ b'l' ∷ []

abbrev pub mouse_button_off : Bytes
mouse_button_off = esc ∷ b'[' ∷ b'?' ∷ b'1' ∷ b'0' ∷ b'0' ∷ b'2' ∷ b'l' ∷ []

abbrev pub mouse_any_off : Bytes
mouse_any_off = esc ∷ b'[' ∷ b'?' ∷ b'1' ∷ b'0' ∷ b'0' ∷ b'3' ∷ b'l' ∷ []

abbrev pub mouse_fmt_utf_8_off : Bytes
mouse_fmt_utf_8_off = esc ∷ b'[' ∷ b'?' ∷ b'1' ∷ b'0' ∷ b'0' ∷ b'5' ∷ b'l' ∷ []

abbrev pub mouse_fmt_sgr_off : Bytes
mouse_fmt_sgr_off = esc ∷ b'[' ∷ b'?' ∷ b'1' ∷ b'0' ∷ b'0' ∷ b'6' ∷ b'l' ∷ []

abbrev pub mouse_fmt_urxvt_off : Bytes
mouse_fmt_urxvt_off = esc ∷ b'[' ∷ b'?' ∷ b'1' ∷ b'0' ∷ b'1' ∷ b'5' ∷ b'l' ∷ []

abbrev pub mouse_fmt_sgr_pixels_off : Bytes
mouse_fmt_sgr_pixels_off = esc ∷ b'[' ∷ b'?' ∷ b'1' ∷ b'0' ∷ b'1' ∷ b'6' ∷ b'l' ∷ []

abbrev pub app_cursor_keys_off : Bytes
app_cursor_keys_off = esc ∷ b'[' ∷ b'?' ∷ b'1' ∷ b'l' ∷ []

abbrev pub app_keypad_dec_off : Bytes
app_keypad_dec_off = esc ∷ b'[' ∷ b'?' ∷ b'6' ∷ b'6' ∷ b'l' ∷ []

abbrev pub app_keypad_esc_off : Bytes
app_keypad_esc_off = esc ∷ b'>' ∷ []

abbrev pub backarrow_off : Bytes
backarrow_off = esc ∷ b'[' ∷ b'?' ∷ b'6' ∷ b'7' ∷ b'l' ∷ []

abbrev pub focus_events_off : Bytes
focus_events_off = esc ∷ b'[' ∷ b'?' ∷ b'1' ∷ b'0' ∷ b'0' ∷ b'4' ∷ b'l' ∷ []

abbrev pub bracketed_paste_off : Bytes
bracketed_paste_off = esc ∷ b'[' ∷ b'?' ∷ b'2' ∷ b'0' ∷ b'0' ∷ b'4' ∷ b'l' ∷ []

abbrev pub alt_sends_escape_off : Bytes
alt_sends_escape_off = esc ∷ b'[' ∷ b'?' ∷ b'1' ∷ b'0' ∷ b'3' ∷ b'9' ∷ b'l' ∷ []

abbrev pub disable_keyboard_off : Bytes
disable_keyboard_off = esc ∷ b'[' ∷ b'2' ∷ b'l' ∷ []

abbrev pub insert_mode_off : Bytes
insert_mode_off = esc ∷ b'[' ∷ b'4' ∷ b'l' ∷ []

abbrev pub linefeed_mode_off : Bytes
linefeed_mode_off = esc ∷ b'[' ∷ b'2' ∷ b'0' ∷ b'l' ∷ []

abbrev pub reverse_colors_off : Bytes
reverse_colors_off = esc ∷ b'[' ∷ b'?' ∷ b'5' ∷ b'l' ∷ []

abbrev pub origin_mode_off : Bytes
origin_mode_off = esc ∷ b'[' ∷ b'?' ∷ b'6' ∷ b'l' ∷ []

abbrev pub wraparound_on : Bytes
wraparound_on = esc ∷ b'[' ∷ b'?' ∷ b'7' ∷ b'h' ∷ []

abbrev pub slow_scroll_off : Bytes
slow_scroll_off = esc ∷ b'[' ∷ b'?' ∷ b'4' ∷ b'l' ∷ []

abbrev pub reverse_wrap_off : Bytes
reverse_wrap_off = esc ∷ b'[' ∷ b'?' ∷ b'4' ∷ b'5' ∷ b'l' ∷ []

abbrev pub reverse_wrap_ext_off : Bytes
reverse_wrap_ext_off = esc ∷ b'[' ∷ b'?' ∷ b'1' ∷ b'0' ∷ b'4' ∷ b'5' ∷ b'l' ∷ []

abbrev pub column_132_off : Bytes
column_132_off = esc ∷ b'[' ∷ b'?' ∷ b'3' ∷ b'l' ∷ []

abbrev pub sync_output_off : Bytes
sync_output_off = esc ∷ b'[' ∷ b'?' ∷ b'2' ∷ b'0' ∷ b'2' ∷ b'6' ∷ b'l' ∷ []

abbrev pub grapheme_cluster_off : Bytes
grapheme_cluster_off = esc ∷ b'[' ∷ b'?' ∷ b'2' ∷ b'0' ∷ b'2' ∷ b'7' ∷ b'l' ∷ []

abbrev pub report_color_scheme_off : Bytes
report_color_scheme_off = esc ∷ b'[' ∷ b'?' ∷ b'2' ∷ b'0' ∷ b'3' ∷ b'1' ∷ b'l' ∷ []

abbrev pub in_band_size_reports_off : Bytes
in_band_size_reports_off = esc ∷ b'[' ∷ b'?' ∷ b'2' ∷ b'0' ∷ b'4' ∷ b'8' ∷ b'l' ∷ []

abbrev pub left_right_margin_off : Bytes
left_right_margin_off = esc ∷ b'[' ∷ b'?' ∷ b'6' ∷ b'9' ∷ b'l' ∷ []

abbrev pub scroll_region_reset : Bytes
scroll_region_reset = esc ∷ b'[' ∷ b'r' ∷ []

abbrev pub cursor_shape_default : Bytes
cursor_shape_default = esc ∷ b'[' ∷ b'0' ∷ b' ' ∷ b'q' ∷ []

abbrev pub charset_g_0_ascii : Bytes
charset_g_0_ascii = 0x0f ∷ esc ∷ b'(' ∷ b'B' ∷ []

abbrev pub alt_screen_47_off : Bytes
alt_screen_47_off = esc ∷ b'[' ∷ b'?' ∷ b'4' ∷ b'7' ∷ b'l' ∷ []

abbrev pub alt_screen_1047_off : Bytes
alt_screen_1047_off = esc ∷ b'[' ∷ b'?' ∷ b'1' ∷ b'0' ∷ b'4' ∷ b'7' ∷ b'l' ∷ []

abbrev pub alt_screen_1049_off : Bytes
alt_screen_1049_off = esc ∷ b'[' ∷ b'?' ∷ b'1' ∷ b'0' ∷ b'4' ∷ b'9' ∷ b'l' ∷ []

abbrev pub sgr_reset : Bytes
sgr_reset = esc ∷ b'[' ∷ b'0' ∷ b'm' ∷ []

abbrev pub cursor_show : Bytes
cursor_show = esc ∷ b'[' ∷ b'?' ∷ b'2' ∷ b'5' ∷ b'h' ∷ []

abbrev pub clear_screen : Bytes
clear_screen = esc ∷ b'[' ∷ b'H' ∷ esc ∷ b'[' ∷ b'2' ∷ b'J' ∷ []

abbrev pub hoot_cleanup_sequence : List Bytes
hoot_cleanup_sequence =
    osc_progress_clear ∷ mouse_x_10_off ∷ mouse_normal_off ∷ mouse_button_off ∷ mouse_any_off
    ∷ mouse_fmt_utf_8_off ∷ mouse_fmt_sgr_off ∷ mouse_fmt_urxvt_off ∷ mouse_fmt_sgr_pixels_off
    ∷ app_cursor_keys_off ∷ app_keypad_dec_off ∷ app_keypad_esc_off ∷ backarrow_off
    ∷ focus_events_off ∷ bracketed_paste_off ∷ alt_sends_escape_off ∷ disable_keyboard_off
    ∷ insert_mode_off ∷ linefeed_mode_off ∷ reverse_colors_off ∷ origin_mode_off ∷ wraparound_on
    ∷ slow_scroll_off ∷ reverse_wrap_off ∷ reverse_wrap_ext_off ∷ column_132_off ∷ sync_output_off
    ∷ grapheme_cluster_off ∷ report_color_scheme_off ∷ in_band_size_reports_off
    ∷ left_right_margin_off ∷ scroll_region_reset ∷ cursor_shape_default ∷ charset_g_0_ascii
    ∷ alt_screen_47_off ∷ alt_screen_1047_off ∷ alt_screen_1049_off ∷ sgr_reset ∷ cursor_show
    ∷ clear_screen ∷ []

-- dtachRestorer: Attach clears the screen and Cleanup shows the cursor; it observes nothing.
abbrev pub dtach_attach : File → File × Bool
dtach_attach w = write_file w clear_screen

abbrev pub dtach_cleanup : File → File × Bool
dtach_cleanup w = write_file w cursor_show
