-- ===== src/Firefox/Lease/Words.antt =====
-- The words of a lease file in internal/firefox/firefox.go.
use hamsterd.Common.{
  ℕ, ◌/◌, ◌%◌, ◌^◌, ◌<◌, ◌≤◌, ◌≡◌, refl, ◌∙◌, false, some, List, [], ◌∷◌, ◌++◌, Text, All, All-imp,
  arith, text_eq,
}
use hamsterd.Common.Int.{ℤ, pos}
use hamsterd.Common.Strings.{is_space, is_digit}
use hamsterd.Common.Fields.{fields, end_word, fields_from, IsWord, IsInWord, fields-word}
use hamsterd.Common.Numbers.{format_int}
use hamsterd.Common.Numbers.RoundTrip.{
  IsDigit, IsNumeral, format_int-IsNumeral, parse_int-format_int,
}
use hamsterd.Control.Server.{hex_digit, hex_text}
use hamsterd.Firefox.Lease.{
  LeaseState, preparing, running, state_text, ProfileLease, lease_state, parse_pid, parsed_lease,
  lease_of, parse_lease, contents,
}

-- A process number that fits in a signed word.
abbrev pub IsPid : ℤ → Type 0
IsPid pid = (n : ℕ) × (1 ≤ n) × (n < 2 ^ 63) × (pid ≡ pos n)

digit_no_space : (c : ℕ) → IsDigit c → IsInWord c
unfolding is_digit is_space
digit_no_space c h = ground (arith, h)

numeral-IsWord : (s : Text) → IsNumeral s → IsWord s
numeral-IsWord [] h = absurd h
numeral-IsWord (c ∷ s) (d, h) = (digit_no_space c d, All-imp IsDigit IsInWord s digit_no_space h)

hex_digit-IsInWord : (n : ℕ) → IsInWord (hex_digit n)
unfolding hex_digit is_space
hex_digit-IsInWord n = ground (arith)

hex_all : (bytes : List ℕ) → All IsInWord (hex_text bytes)
unfolding hex_text
hex_all [] = tt
hex_all (c ∷ bytes) = (hex_digit-IsInWord (c / 16), (hex_digit-IsInWord (c % 16), hex_all bytes))

pub hex_text-IsWord : (c : ℕ) (bytes : List ℕ) → IsWord (hex_text (c ∷ bytes))
unfolding hex_text
hex_text-IsWord c bytes = hex_all (c ∷ bytes)

state-IsWord : (s : LeaseState) → IsWord (state_text s)
unfolding state_text is_space
state-IsWord preparing = ground arith
state-IsWord running = ground arith

lease_state-state_text : (s : LeaseState) → lease_state (state_text s) ≡ some s
unfolding lease_state state_text text_eq
lease_state-state_text preparing = refl
lease_state-state_text running = refl

fields-contents :
    (l : ProfileLease) (pid : ℕ)
    → IsWord l.token
    → fields (contents l (pos pid)) ≡ state_text l.state ∷ format_int (pos pid) ∷ l.token ∷ []
unfolding contents is_space fields fields_from end_word
fields-contents l pid h =
    fields-word (state_text l.state) _ b' ' (state-IsWord l.state) refl
    ∙ rw
        (
          fields-word (format_int (pos pid)) (l.token ++ (b'\n' ∷ [])) b' '
              (numeral-IsWord _ (format_int-IsNumeral pid)) refl,
          fields-word l.token [] b'\n' h refl,
        )
        refl

parse_pid-format_int :
    (pid : ℕ) → 1 ≤ pid → pid < 2 ^ 63 → parse_pid (format_int (pos pid)) ≡ some (pos pid)
unfolding parse_pid
parse_pid-format_int pid l h = rw (parse_pid, parse_int-format_int pid h) (ground (arith))

word_not_empty : (w : Text) → IsWord w → text_eq w [] ≡ false
unfolding text_eq
word_not_empty [] h = absurd h
word_not_empty (c ∷ w) h = refl

-- What a lease writes for a process number that fits in a signed word, `parseLease` reads back: the
-- state, the number and the token. The token has one byte or more and no white space.
pub parse_lease-contents :
    (l : ProfileLease) (pid : ℕ)
    → IsWord l.token
    → 1 ≤ pid
    → pid < 2 ^ 63
    → parse_lease (contents l (pos pid))
      ≡ some (record { state = l.state; pid = pos pid; token = l.token })
unfolding parse_lease lease_of parsed_lease
parse_lease-contents l pid h low high =
    rw
      (
        fields-contents l pid h,
        lease_state-state_text l.state,
        parse_pid-format_int pid low high,
        word_not_empty l.token h,
      )
      refl
