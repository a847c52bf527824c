-- ===== src/Core/Hkcp/Setting.antt =====
-- core/hkcp.c, core/hkcp_cmd.c: what a node is sent of a source's value is what it takes for its sink.
use hakit.Base.{
  ℕ, ◌≡◌, ◌≢◌, inl, inr, refl, sym, ap, subst, ◌∙◌, Bool, true, false, some, List, [], ◌∷◌, ◌++◌,
  ◌==◌, arith, append_assoc, Bool-cases, ==_iff, eq_bytes,
}
use mathlib.Core.Option.{some-injective}
use hakit.Core.StrArgv.{str_argv, bare_kind, plain, blank}
use hakit.Core.StrArgv.Words.{AllBare, unwords, str_argv-unwords}
use hakit.Core.Command.{command_new, command_recv, dispatch, is_empty}
use hakit.Core.Command.Chunks.{bytes, recv-bytes}
use hakit.Core.Command.Lines.{OneLine, OneLine-append, c_string-OneLine, bytes-line}
use hakit.Core.Endpoint.{Endpoints, sink_retrieve_by_name}
use hakit.Core.Endpoint.Update.{sink_update}
use hakit.Core.Hkcp.{Hkcp, set_command}
use hakit.Core.Hkcp.Commands.{About, split_eq, command, command_set, set_value, verb, verb_set}
use hakit.Core.Hkcp.Clients.{
  Client, Server, reply, client_of, modify_client, command_tcp, run_commands, tcp_data, watch_word,
}

-- No byte is '='.
abbrev pub NoEq : List ℕ → Type 0
NoEq [] = Unit {0}
NoEq (c ∷ s) = (c ≢ b'=') × NoEq s

pub split_eq-append :
    (name value : List ℕ) → NoEq name → split_eq (name ++ (b'=' ∷ value)) ≡ some (name, value)
unfolding split_eq
split_eq-append [] value ok = refl
split_eq-append (c ∷ name) value (ne, ok) = rw (other c ne, split_eq-append name value ok) refl
  where
    other : (c : ℕ) → c ≢ b'=' → (c == b'=') ≡ false
    other c ne = ground (arith, ne)

AllBare-OneLine : (sc : Bool) (s : List ℕ) → AllBare sc s → OneLine s
AllBare-OneLine sc [] ok = tt
AllBare-OneLine sc (c ∷ s) (b, ok) =
    (λ e. not_bare 10 e (at_10 sc), λ e. not_bare 0 e (at_0 sc), AllBare-OneLine sc s ok)
  where
    at_10 : (sc : Bool) → bare_kind sc 10 ≡ blank
    at_10 true = refl
    at_10 false = refl

    at_0 : (sc : Bool) → bare_kind sc 0 ≡ blank
    at_0 true = refl
    at_0 false = refl

    not_bare : (d : ℕ) → c ≡ d → bare_kind sc d ≡ blank → ⊥
    not_bare d e at = ground (arith, sym at ∙ subst (λ c. bare_kind sc c ≡ plain) e b)

AllBare-append : (sc : Bool) (s t : List ℕ) → AllBare sc s → AllBare sc t → AllBare sc (s ++ t)
AllBare-append sc [] t ok okt = okt
AllBare-append sc (c ∷ s) t (b, ok) okt = (b, AllBare-append sc s t ok okt)

abbrev set_word : List ℕ
set_word = b's' ∷ b'e' ∷ b't' ∷ []

-- The argument of the command.
abbrev assignment : List ℕ → List ℕ → List ℕ
assignment name value = name ++ (b'=' ∷ value)

set_command-unwords :
    (name value : List ℕ)
    → set_command name value ≡ unwords set_word (assignment name value ∷ []) ++ (10 ∷ [])
unfolding unwords
set_command-unwords name value =
    ap (λ (s : List ℕ). b's' ∷ b'e' ∷ b't' ∷ b' ' ∷ s)
      (sym (append_assoc name (b'=' ∷ value) (10 ∷ [])))

set_word-bare : (sc : Bool) → AllBare sc set_word
set_word-bare true = (refl, (refl, (refl, tt)))
set_word-bare false = (refl, (refl, (refl, tt)))

assignment-some : (name value : List ℕ) → assignment name value ≢ []
assignment-some [] value e = ground (arith, e)
assignment-some (c ∷ name) value e = ground (arith, e)

assignment-bare :
    (sc : Bool) (name value : List ℕ)
    → AllBare sc name
    → AllBare sc value
    → AllBare sc (assignment name value)
assignment-bare true name value okn okv = AllBare-append true name (b'=' ∷ value) okn (refl, okv)
assignment-bare false name value okn okv = AllBare-append false name (b'=' ∷ value) okn (refl, okv)

set_line-bare :
    (sc : Bool) (name value : List ℕ)
    → AllBare sc name
    → AllBare sc value
    → OneLine (unwords set_word (assignment name value ∷ []))
unfolding unwords
set_line-bare sc name value okn okv =
    OneLine-append (b's' ∷ b'e' ∷ b't' ∷ b' ' ∷ []) (assignment name value)
      (
        omega arith,
        omega arith,
        (omega arith, omega arith, (omega arith, omega arith, (omega arith, omega arith, tt))),
      )
      (AllBare-OneLine sc (assignment name value) (assignment-bare sc name value okn okv))

dispatch-set :
    (sc : Bool) (name value : List ℕ)
    → AllBare sc name
    → AllBare sc value
    → dispatch sc true (unwords set_word (assignment name value ∷ []))
      ≡ (set_word ∷ assignment name value ∷ []) ∷ []
unfolding dispatch is_empty unwords
dispatch-set sc name value okn okv =
    ap (λ (s : List ℕ). str_argv sc s ∷ [])
      (c_string-OneLine (unwords set_word (assignment name value ∷ []))
        (set_line-bare sc name value okn okv))
    ∙ ap (λ (argv : List (List ℕ)). argv ∷ [])
        (str_argv-unwords sc set_word (assignment name value ∷ [])
          (λ e. ground (arith, e), set_word-bare sc)
          ((assignment-some name value, assignment-bare sc name value okn okv), tt))

-- The receiver of the line calls its handler with the two words.
command_recv-set :
    (sc : Bool) (name value : List ℕ)
    → AllBare sc name
    → AllBare sc value
    → command_recv sc (command_new true) (some (set_command name value))
      ≡ (1, (set_word ∷ assignment name value ∷ []) ∷ [], command_new true)
unfolding bytes
command_recv-set sc name value okn okv =
    let line = unwords set_word (assignment name value ∷ []) in
    let one = set_line-bare sc name value okn okv in
    ap (λ s. command_recv sc (command_new true) (some s)) (set_command-unwords name value)
    ∙ recv-bytes sc (command_new true) (line ++ (10 ∷ []))
    ∙ ap (λ (r : List (List (List ℕ)) × List ℕ). (1, r.0, record (command_new true) { line = r.1 }))
        (bytes-line sc true [] line [] one
          ∙ ap (λ (calls : List (List (List ℕ))). (calls ++ [], []))
              (dispatch-set sc name value okn okv))

client_of-head :
    (d : Client) (clients : List Client) (fd : ℕ)
    → (d.fd == fd) ≡ true
    → client_of (d ∷ clients) fd ≡ some d
client_of-head d clients fd e = rw e refl

client_of-fd :
    (clients : List Client) (fd : ℕ) (c : Client) → client_of clients fd ≡ some c → c.fd ≡ fd
client_of-fd [] fd c at = absurd (ground (arith, at))
client_of-fd (d ∷ clients) fd c at = elim (Bool-cases (d.fd == fd)) [
  | inl e ↦
      let same : d ≡ c = some-injective d c (sym (client_of-head d clients fd e) ∙ at) in
      ap (λ d. d.fd) (sym same) ∙ (==_iff d.fd fd).0 e
  | inr e ↦ client_of-fd clients fd c (ground (arith, at, e))
]

client_of-modify :
    (clients : List Client) (fd : ℕ) (c : Client) (f : Client → Client)
    → ((d : Client) → (f d).fd ≡ d.fd)
    → client_of clients fd ≡ some c
    → client_of (modify_client clients fd f) fd ≡ some (f c)
client_of-modify [] fd c f keeps at = absurd (ground (arith, at))
client_of-modify (d ∷ clients) fd c f keeps at = elim (Bool-cases (d.fd == fd)) [
  | inl e ↦
      let same : d ≡ c = some-injective d c (sym (client_of-head d clients fd e) ∙ at) in
      let begins : modify_client (d ∷ clients) fd f ≡ f d ∷ clients = rw e refl in
      ap (λ l. client_of l fd) begins
      ∙ client_of-head (f d) clients fd (ap (λ n. n == fd) (keeps d) ∙ e)
      ∙ ap (λ d. some (f d)) same
  | inr e ↦
      let goes : modify_client (d ∷ clients) fd f ≡ d ∷ modify_client clients fd f = rw e refl in
      ap (λ l. client_of l fd) goes
      ∙ rw e (client_of-modify clients fd c f keeps (ground (arith, at, e)))
]

verb-set : verb set_word ≡ verb_set
unfolding verb eq_bytes
verb-set = refl

set_word-watch : eq_bytes set_word watch_word ≡ false
unfolding eq_bytes
set_word-watch = refl

command_set-found :
    {S : Type 0} (handler : ℕ → ℕ → Endpoints × S → Endpoints × S) (now : ℕ) (eps : Endpoints)
    (s : S) (name value : List ℕ) (i : ℕ)
    → NoEq name
    → sink_retrieve_by_name eps name ≡ some i
    → command_set handler now (eps, s) (assignment name value ∷ [])
      ≡ ([], sink_update handler now i value (eps, s))
unfolding command_set set_value
command_set-found {S = S} handler now eps s name value i no_eq found =
    ap (λ (r : List ℕ × (Endpoints × S)). (r.0 ++ [], r.1)) one
  where
    one :
        set_value handler now (eps, s) (assignment name value)
        ≡ ([], sink_update handler now i value (eps, s))
    one = rw (set_value, split_eq-append name value no_eq, found) refl

command_tcp-set :
    {S : Type 0} (handler : ℕ → ℕ → Endpoints × S → Endpoints × S) (sc : Bool) (about : About)
    (now : ℕ) (h : Hkcp) (c : Client) (srv : Server) (eps : Endpoints) (s : S) (name value : List ℕ)
    (i : ℕ)
    → NoEq name
    → sink_retrieve_by_name eps name ≡ some i
    → command_tcp handler sc about now h c (set_word ∷ assignment name value ∷ []) (srv, (eps, s))
      ≡ some (reply c.fd [] srv, sink_update handler now i value (eps, s))
unfolding command_tcp command
command_tcp-set handler sc about now h c srv eps s name value i no_eq found =
    rw
      (
        command_tcp,
        set_word-watch,
        command,
        verb-set,
        command_set-found handler now eps s name value i no_eq found,
      )
      refl

-- A client of the program whose line is empty sends what `hkcp_source_update` writes for a name and a value
-- without blanks, quotes, backslashes or control characters, nor bytes from 0x80 on where char is signed, the
-- name without '=': the sink of that name is updated with the value, and the answer is empty.
pub set_command-received :
    {S : Type 0} (handler : ℕ → ℕ → Endpoints × S → Endpoints × S) (sc : Bool) (about : About)
    (now : ℕ) (h : Hkcp) (fd : ℕ) (c : Client) (srv : Server) (eps : Endpoints) (s : S)
    (name value : List ℕ) (i : ℕ)
    → client_of srv.clients fd ≡ some c
    → c.cmd ≡ command_new true
    → AllBare sc name
    → AllBare sc value
    → NoEq name
    → sink_retrieve_by_name eps name ≡ some i
    → tcp_data handler sc about now h fd (set_command name value) (srv, (eps, s))
      ≡ some (
        reply fd [] (record srv {
          clients = modify_client srv.clients fd (λ d. record d { cmd = command_new true });
        }),
        sink_update handler now i value (eps, s),
      )
unfolding tcp_data run_commands
set_command-received handler sc about now h fd c srv eps s name value i at fresh okn okv no_eq
      found =
    rw
      (
        tcp_data,
        at,
        fresh,
        command_recv-set sc name value okn okv,
        run_commands,
        client_of-modify srv.clients fd c (λ d. record d { cmd = command_new true }) (λ d. refl) at,
        command_tcp-set handler sc about now h (record c { cmd = command_new true })
            (record srv {
              clients = modify_client srv.clients fd (λ d. record d { cmd = command_new true });
            })
            eps s name value i no_eq found,
        client_of-fd srv.clients fd c at,
      )
      refl
