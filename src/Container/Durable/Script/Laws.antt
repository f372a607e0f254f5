-- ===== src/Container/Durable/Script/Laws.antt =====
-- What a shell reads in a rendered script.
use docker_go_sdk.Common.{
  ℕ, Bool, true, false, ◌≡◌, refl, sym, ap, ◌∙◌, Option, none, some, List, [], ◌∷◌, ◌++◌,
  append_assoc, append-nil, arith, ==_iff, All, if◌then◌else◌, ◌==◌,
}
use docker_go_sdk.Common.Bytes.{Bytes, codes, cut_byte}
use docker_go_sdk.Container.Durable.Script.{
  shell_single_quote, replace_byte, escaped_quote, every, export_line, export_lines, cd_line,
  quoted_arguments, script_body, ExecConfig,
}
use docker_go_sdk.Container.Durable.Words.{
  Reader, Mode, between, word, quoted, kind_of, is_plain, read, feed, at_line, end_line,
  feed-append,
}

abbrev pub at : Mode → List Bytes → List (List Bytes) → Reader
at m ws ls = record { mode = m; words = ws; lines = ls }

read_other :
    (c : ℕ) (w : Bytes) (ws : List Bytes) (ls : List (List Bytes))
    → (c == b'\'') ≡ false
    → read (kind_of c) c (quoted w) ws ls ≡ at (quoted (w ++ c ∷ [])) ws ls
unfolding kind_of
read_other c w ws ls h = ground arith

read_plain :
    (c : ℕ) (w : Bytes) (ws : List Bytes) (ls : List (List Bytes))
    → is_plain c ≡ true
    → read (kind_of c) c (word w) ws ls ≡ at (word (w ++ c ∷ [])) ws ls
unfolding kind_of
read_plain c w ws ls h = ground arith

one_more : (w : Bytes) (c : ℕ) (s : Bytes) → (w ++ c ∷ []) ++ s ≡ w ++ c ∷ s
one_more w c s = append_assoc w (c ∷ []) s

feed_replaced_byte :
    (c : ℕ) (w s t : Bytes) (ws : List Bytes) (ls : List (List Bytes)) (rest : Bytes) (b : Bool)
    → (c == b'\'') ≡ b
    → ((v : Bytes) → feed (at (quoted v) ws ls) (rest ++ t) ≡ feed (at (quoted (v ++ s)) ws ls) t)
    → feed (at (quoted w) ws ls) ((if b then escaped_quote ++ rest else c ∷ rest) ++ t)
      ≡ feed (at (quoted (w ++ c ∷ s)) ws ls) t
unfolding feed
feed_replaced_byte c w s t ws ls rest true h then_rest =
    then_rest (w ++ b'\'' ∷ [])
    ∙ ap (λ v. feed (at (quoted v) ws ls) t)
        (one_more w b'\'' s ∙ ap (λ d. w ++ d ∷ s) (sym ((==_iff c b'\'').0 h)))
feed_replaced_byte c w s t ws ls rest false h then_rest =
    ap (λ r. feed r (rest ++ t)) (read_other c w ws ls h)
    ∙ then_rest (w ++ c ∷ [])
    ∙ ap (λ v. feed (at (quoted v) ws ls) t) (one_more w c s)

feed_replaced :
    (w s t : Bytes) (ws : List Bytes) (ls : List (List Bytes))
    → feed (at (quoted w) ws ls) (replace_byte b'\'' escaped_quote s ++ t)
      ≡ feed (at (quoted (w ++ s)) ws ls) t
unfolding feed replace_byte
feed_replaced w [] t ws ls = ap (λ v. feed (at (quoted v) ws ls) t) (sym (append-nil w))
feed_replaced w (c ∷ s) t ws ls =
    feed_replaced_byte c w s t ws ls (replace_byte b'\'' escaped_quote s) (c == b'\'') refl
      (λ v. feed_replaced v s t ws ls)

feed_plain :
    (w s : Bytes) (ws : List Bytes) (ls : List (List Bytes))
    → every is_plain s ≡ true
    → feed (at (word w) ws ls) s ≡ at (word (w ++ s)) ws ls
unfolding feed every
feed_plain w [] ws ls h = ap (λ v. at (word v) ws ls) (sym (append-nil w))
feed_plain w (c ∷ s) ws ls h =
    ap (λ r. feed r s) (read_plain c w ws ls (ground arith))
    ∙ feed_plain (w ++ c ∷ []) s ws ls (ground arith)
    ∙ ap (λ v. at (word v) ws ls) (one_more w c s)

pub feed_quote :
    (s t : Bytes) (ws : List Bytes) (ls : List (List Bytes))
    → feed (at between ws ls) (shell_single_quote s ++ t) ≡ feed (at (word s) ws ls) t
unfolding feed shell_single_quote
feed_quote [] t ws ls = refl
feed_quote (c ∷ s) t ws ls =
    ap (λ v. feed (at (quoted []) ws ls) v)
      (append_assoc (replace_byte b'\'' escaped_quote (c ∷ s)) (b'\'' ∷ []) t)
    ∙ feed_replaced [] (c ∷ s) (b'\'' ∷ t) ws ls

feed_quote_in_word :
    (w s t : Bytes) (ws : List Bytes) (ls : List (List Bytes))
    → feed (at (word w) ws ls) (shell_single_quote s ++ t) ≡ feed (at (word (w ++ s)) ws ls) t
unfolding feed shell_single_quote
feed_quote_in_word w [] t ws ls = ap (λ v. feed (at (word v) ws ls) t) (sym (append-nil w))
feed_quote_in_word w (c ∷ s) t ws ls =
    ap (λ v. feed (at (quoted w) ws ls) v)
      (append_assoc (replace_byte b'\'' escaped_quote (c ∷ s)) (b'\'' ∷ []) t)
    ∙ feed_replaced w (c ∷ s) (b'\'' ∷ t) ws ls

end_line-snoc :
    (ws : List Bytes) (w : Bytes) (ls : List (List Bytes))
    → end_line (ws ++ w ∷ []) ls ≡ ls ++ (ws ++ w ∷ []) ∷ []
end_line-snoc [] w ls = refl
end_line-snoc (v ∷ ws) w ls = refl

feed_arguments :
    (args : List Bytes) (w : Bytes) (ws : List Bytes) (ls : List (List Bytes))
    → feed (at (word w) ws ls) (quoted_arguments args ++ b'\n' ∷ [])
      ≡ at_line (ls ++ (ws ++ w ∷ args) ∷ [])
unfolding feed quoted_arguments
feed_arguments [] w ws ls = ap at_line (end_line-snoc ws w ls)
feed_arguments (a ∷ args) w ws ls =
    ap (λ v. feed (at between (ws ++ w ∷ []) ls) v)
      (append_assoc (shell_single_quote a) (quoted_arguments args) (b'\n' ∷ []))
    ∙ feed_quote a (quoted_arguments args ++ b'\n' ∷ []) (ws ++ w ∷ []) ls
    ∙ feed_arguments args a (ws ++ w ∷ []) ls
    ∙ ap (λ v. at_line (ls ++ v ∷ [])) (append_assoc ws (w ∷ []) (a ∷ args))

feed_both :
    (r r' r'' : Reader) (s t : Bytes) → feed r s ≡ r' → feed r' t ≡ r'' → feed r (s ++ t) ≡ r''
feed_both r r' r'' s t h k = feed-append r s t ∙ ap (λ q. feed q t) h ∙ k

-- The commands that the entries of the environment stand for.
abbrev pub export_commands_of : Option (Bytes × Bytes) → List (List Bytes)
export_commands_of none = []
export_commands_of (some ([], value)) = []
export_commands_of (some (c ∷ name, value)) =
    (codes "export" ∷ ((c ∷ name) ++ b'=' ∷ value) ∷ []) ∷ []

unfoldable pub export_commands : List Bytes → List (List Bytes)
unfolding cut_byte
export_commands [] = []
export_commands (entry ∷ env) = export_commands_of (cut_byte b'=' entry) ++ export_commands env

-- The name has no byte that the shell treats in a special way.
unfoldable pub has_plain_name : Bytes → Bool
unfolding cut_byte every
has_plain_name entry = elim (cut_byte b'=' entry) [
  | none ↦ true
  | some (name, value) ↦ every is_plain name
]

read_first :
    (c : ℕ) (ws : List Bytes) (ls : List (List Bytes))
    → is_plain c ≡ true
    → read (kind_of c) c between ws ls ≡ at (word (c ∷ [])) ws ls
unfolding kind_of
read_first c ws ls h = ground arith

feed_export :
    (parts : Option (Bytes × Bytes)) (ls : List (List Bytes))
    → elim parts [ none ↦ true | some (name, value) ↦ every is_plain name ] ≡ true
    → feed (at_line ls) (export_line parts) ≡ at_line (ls ++ export_commands_of parts)
unfolding feed every
feed_export none ls h = ap at_line (sym (append-nil ls))
feed_export (some ([], value)) ls h = ap at_line (sym (append-nil ls))
feed_export (some (c ∷ name, value)) ls h =
    let after = b'=' ∷ (shell_single_quote value ++ b'\n' ∷ []) in
    ap (λ r. feed r (name ++ after)) (read_first c (codes "export" ∷ []) ls (ground arith))
    ∙ feed_both (at (word (c ∷ [])) (codes "export" ∷ []) ls)
        (at (word (c ∷ name)) (codes "export" ∷ []) ls)
        (at_line (ls ++ export_commands_of (some (c ∷ name, value)))) name after
        (feed_plain (c ∷ []) name (codes "export" ∷ []) ls (ground arith))
        (feed_quote_in_word (c ∷ (name ++ b'=' ∷ [])) value (b'\n' ∷ []) (codes "export" ∷ []) ls
          ∙ ap (λ v. at_line (ls ++ (codes "export" ∷ (c ∷ v) ∷ []) ∷ []))
              (one_more name b'=' value))

feed_exports :
    (env : List Bytes) (ls : List (List Bytes))
    → All (λ entry. has_plain_name entry ≡ true) env
    → feed (at_line ls) (export_lines env) ≡ at_line (ls ++ export_commands env)
unfolding export_lines export_commands has_plain_name feed
feed_exports [] ls h = ap at_line (sym (append-nil ls))
feed_exports (entry ∷ env) ls (is_plain_name, h) =
    let parts = cut_byte b'=' entry in
    feed_both (at_line ls) (at_line (ls ++ export_commands_of parts))
      (at_line (ls ++ (export_commands_of parts ++ export_commands env))) (export_line parts)
      (export_lines env) (feed_export parts ls is_plain_name)
      (feed_exports env (ls ++ export_commands_of parts) h
        ∙ ap at_line (append_assoc ls (export_commands_of parts) (export_commands env)))

abbrev pub cd_commands : Bytes → List (List Bytes)
cd_commands [] = []
cd_commands (c ∷ dir) = (codes "cd" ∷ (c ∷ dir) ∷ []) ∷ []

feed_cd :
    (dir : Bytes) (ls : List (List Bytes))
    → feed (at_line ls) (cd_line dir) ≡ at_line (ls ++ cd_commands dir)
unfolding cd_line feed
feed_cd [] ls = ap at_line (sym (append-nil ls))
feed_cd (c ∷ dir) ls = feed_quote (c ∷ dir) (b'\n' ∷ []) (codes "cd" ∷ []) ls

-- The commands of a script's body.
abbrev pub body_commands : List Bytes → ExecConfig → List (List Bytes)
body_commands cmd po =
    export_commands po.env ++ (cd_commands po.working_dir ++ (codes "exec" ∷ cmd) ∷ [])

pub feed_body :
    (cmd : List Bytes) (po : ExecConfig) (ls : List (List Bytes))
    → All (λ entry. has_plain_name entry ≡ true) po.env
    → feed (at_line ls) (script_body cmd po) ≡ at_line (ls ++ body_commands cmd po)
unfolding script_body feed
feed_body cmd po ls h =
    let exports = export_commands po.env in
    let dir = cd_commands po.working_dir in
    let last = (codes "exec" ∷ cmd) ∷ [] in
    let arguments = codes "exec" ++ (quoted_arguments cmd ++ b'\n' ∷ []) in
    feed_both (at_line ls) (at_line (ls ++ exports)) (at_line (ls ++ (exports ++ (dir ++ last))))
      (export_lines po.env) (cd_line po.working_dir ++ arguments) (feed_exports po.env ls h)
      (feed_both (at_line (ls ++ exports)) (at_line (ls ++ exports ++ dir))
        (at_line (ls ++ (exports ++ (dir ++ last)))) (cd_line po.working_dir) arguments
        (feed_cd po.working_dir (ls ++ exports))
        (feed_arguments cmd (codes "exec") [] (ls ++ exports ++ dir)
          ∙ ap at_line
              (append_assoc (ls ++ exports) dir last ∙ append_assoc ls exports (dir ++ last))))
