-- ===== src/Session/Prompt.antt =====
-- The regular expressions of internal/session/ix2106/session.go.
use dhcp_lease_observer.Prelude.{
  ℕ, Bool, true, false, not, ◌&&◌, ◌||◌, [], ◌∷◌, ◌+◌, nat_beq, ◌==◌, if◌then◌else◌,
}
use dhcp_lease_observer.Text.{Bytes, codes, is_label_byte, is_empty, bytes_eq, within}

-- The longest prefix of label bytes `[A-Za-z0-9._-]*`, and the rest.
unfoldable pub span_label : Bytes → Bytes × Bytes
span_label [] = ([], [])
span_label (c ∷ cs) =
    let rest = span_label cs in if is_label_byte c then (c ∷ rest.0, rest.1) else ([], c ∷ cs)

-- `^[A-Za-z0-9._-]+\(config\)%$`
unfoldable pub is_config_prompt : Bytes → Bool
is_config_prompt s =
    let (name, rest) = span_label s in not (is_empty name) && rest == codes "(config)%"

-- `^[A-Za-z0-9._-]+(?:\(config\))?[#%]$`
unfoldable pub is_prompt_like : Bytes → Bool
is_prompt_like s =
    let (name, rest) = span_label s in
    not (is_empty name)
    && (rest == codes "#"
        || rest == codes "%"
        || rest == codes "(config)#"
        || rest == codes "(config)%")

-- Simple case folding as far as the words below can tell: ASCII letters, and U+017F, which folds to s.
unfoldable pub fold_case : Bytes → Bytes
fold_case [] = []
fold_case (c ∷ []) = (if within b'A' b'Z' c then c + 32 else c) ∷ []
fold_case (c ∷ d ∷ cs) =
    let long_s = b's' ∷ fold_case cs in
    let rest = (if within b'A' b'Z' c then c + 32 else c) ∷ fold_case (d ∷ cs) in
    if nat_beq c 0xc5 && nat_beq d 0xbf then long_s else rest

-- `\s` of a regular expression
abbrev pub is_pattern_space : ℕ → Bool
is_pattern_space c = nat_beq c 9 || nat_beq c 10 || nat_beq c 12 || nat_beq c 13 || nat_beq c 32

-- A word at the start, with white space or the end behind it.
starts_word : Bytes → Bytes → Bool
starts_word [] [] = true
starts_word (c ∷ cs) [] = is_pattern_space c
starts_word [] (w ∷ ws) = false
starts_word (c ∷ cs) (w ∷ ws) = nat_beq c w && starts_word cs ws

-- `(?i)^(?:show|terminal|configure|exit)(?:\s|$)`
unfoldable pub is_command_echo : Bytes → Bool
unfolding fold_case starts_word
is_command_echo s =
    let folded = fold_case s in
    starts_word folded (codes "show")
    || starts_word folded (codes "terminal")
    || starts_word folded (codes "configure")
    || starts_word folded (codes "exit")

-- `^(?:configure|terminal length 0|show ip dhcp lease|show arp entry|exit)$`
unfoldable pub is_fixed_command : Bytes → Bool
is_fixed_command s =
    s == codes "configure"
    || s == codes "terminal length 0"
    || s == codes "show ip dhcp lease"
    || s == codes "show arp entry"
    || s == codes "exit"
