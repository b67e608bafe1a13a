-- ===== src/Reply/Tests.antt =====
-- Replies: the theorems at concrete texts.
use boba_claw.Prelude.{
  ◌≡◌, refl, false, [], ◌∷◌, Text, codes, contains, All, trim, trim_end, trim_start, is_whitespace,
}
use boba_claw.ToolLoop.{ToolPersistEntry, digits_within}
use boba_claw.Reply.{
  tool_results_html_comment, leaked_tool_xml_markers, sanitize_user_reply,
  build_persisted_assistant, strip_leaked_tool_xml, trim_trailing_tool_persist_lines, index_of,
  lines, drop_trailing,
}
use boba_claw.Reply.Hidden.{reply_hides}
use boba_claw.Reply.Stored.{stored_shows_reply}

abbrev leaked : Text
leaked = codes "Done.\n[exec exit=0]\r\n\n<invoke name=\"exec\">"

abbrev entry : ToolPersistEntry
entry = record { name = "exec"; exit_code = 1; body = codes "no such file" }

shown : sanitize_user_reply leaked ≡ codes "Done."
unfolding sanitize_user_reply strip_leaked_tool_xml trim_trailing_tool_persist_lines index_of lines
    drop_trailing trim trim_end trim_start is_whitespace contains
shown = refl

stored :
    build_persisted_assistant (codes "Done.") (entry ∷ [])
    ≡ codes "Done.\n\n<!-- tool-results -->\n[exec exit=1]\nno such file\n"
unfolding build_persisted_assistant digits_within
stored = refl

reply_hides_example :
    All
      (λ m. contains (sanitize_user_reply leaked) m ≡ false)
      (tool_results_html_comment ∷ leaked_tool_xml_markers)
reply_hides_example = reply_hides leaked

stored_shows_reply_example :
    sanitize_user_reply (build_persisted_assistant leaked (entry ∷ [])) ≡ sanitize_user_reply leaked
stored_shows_reply_example = stored_shows_reply leaked (entry ∷ [])
