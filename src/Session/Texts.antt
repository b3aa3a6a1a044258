-- ===== src/Session/Texts.antt =====
-- The texts of the session's messages, as `fmt.Sprintf` prints them. Each is a function of the
-- time and the arguments of its format.
use mchat.Base.{
  ℕ, suc, ◌+◌, ◌-◌, ◌/◌, ◌%◌, Bool, List, [], ◌∷◌, ◌++◌, Bytes, codes, length, replicate, ltb,
  if◌then◌else◌,
}
use mchat.Text.Atoi.{ℤ, pos, negsuc}
use mchat.Types.{ChatMessage}
use mchat.Util.{fmtln}

-- the decimal digits of a number, in front of `rest`
unfoldable pub decimal_onto : ℕ → ℕ → Bytes → Bytes
decimal_onto ℕ.zero n rest = rest
decimal_onto (suc fuel) n rest =
    let more = decimal_onto fuel (n / 10) ((48 + n % 10) ∷ rest) in
    if ltb n 10 then (48 + n) ∷ rest else more

-- `%d`; a number has fewer digits than its successor counts
unfoldable pub decimal : ℤ → Bytes
unfolding decimal_onto
decimal (pos n) = decimal_onto (suc n) n []
decimal (negsuc n) = b'-' ∷ decimal_onto (suc (suc n)) (suc n) []

-- "{server: %s} " before a text
unfoldable pub server : Bytes → Bytes → Bytes
server now text = codes "{server: " ++ (now ++ (codes "} " ++ text))

-- a text around one argument
unfoldable pub around : Bytes → Bytes → Bytes → Bytes
around before arg after = before ++ (arg ++ after)

-- "{%s:%s} %s"
unfoldable pub chat_line : ChatMessage → Bytes
unfolding fmtln
chat_line msg =
    fmtln (b'{' ∷ (msg.sender ++ (b':' ∷ (msg.sent_time ++ (codes "} " ++ msg.contents)))))

unfoldable pub build_chat_history : List ChatMessage → Bytes
unfolding chat_line
build_chat_history [] = []
build_chat_history (msg ∷ history) = chat_line msg ++ build_chat_history history

-- "\t{%d} :%s"
unfoldable pub channel_lines : ℕ → List Bytes → Bytes
unfolding decimal fmtln
channel_lines index [] = []
channel_lines index (name ∷ names) =
    fmtln (codes "\t{" ++ (decimal (pos index) ++ (codes "} :" ++ name)))
    ++ channel_lines (index + 1) names

-- on the names of the channels
unfoldable pub build_channel_list : List Bytes → Bytes
unfolding channel_lines
build_channel_list names = codes "channels:\n" ++ channel_lines 0 names

-- "\t{%-64s} *%s" on an ASCII name
unfoldable pub member_line : Bytes → Bool → Bytes
unfolding fmtln
member_line username online = fmtln (
    codes "\t{"
    ++ (username
        ++ (replicate (64 - length username) b' '
            ++ (codes "} *" ++ (if online then codes "online" else codes "offline")))))

unfoldable pub option_text : ℕ → Bytes → Bytes
unfolding decimal
option_text i name = codes "\t{" ++ (decimal (pos i) ++ (codes "}: " ++ (name ++ codes "\n")))

-- `optionsStr`
unfoldable pub options_str : Bytes
unfolding option_text
options_str =
    codes "options:\n"
    ++ (option_text 1 (codes "register")
        ++ (option_text 2 (codes "log in")
            ++ (option_text 3 (codes "create channel")
                ++ (option_text 4 (codes "select channels")
                    ++ (option_text 5 (codes "list members")
                        ++ (option_text 6 (codes "display chat history")
                            ++ (option_text 7 (codes "exit") ++ codes "\n\tenter option: ")))))))
