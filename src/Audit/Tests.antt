-- ===== src/Audit/Tests.antt =====
-- Two actions that are logged and read back.
use orxies.Prelude.{◌≡◌, refl, [], ◌∷◌, none, some, codes, take, text_eq, text_key, if◌then◌else◌}
use orxies.Audit.{Record, Codec, audit_ip, write_record, log, tail_lines, reverse, tail}
use orxies.Audit.Tails.{write_all, AllLines, tail-write_all}

program : Unit {0}
unfolding audit_ip write_record log tail_lines tail write_all
program = tt

abbrev login : Record
login = record {
  time = codes "t1";
  user = codes "ann";
  ip = codes "10.0.0.1";
  action = codes "login";
  target = [];
  result = codes "ok";
}

abbrev create : Record
create = record login { time = codes "t2"; action = codes "create" }

-- A record is printed as its time.
abbrev codec : Codec
codec = record {
  marshal = λ rec. some rec.time;
  unmarshal = λ line.
      if text_eq line (codes "t1")
      then some login
      else if text_eq line (codes "t2")
      then some create
      else none;
  split_host = λ remote_addr. none;
}

two_lines : write_all codec [] (login ∷ create ∷ []) ≡ codes "t1\nt2\n"
unfolding program
two_lines = refl

cut_short : tail codec (codes "t1\nt2\nbroken") 1 ≡ create ∷ []
unfolding program
cut_short = refl

nobody_writes : log codec none [] none [] [] [] [] ≡ none
unfolding program
nobody_writes = refl

both-AllLines : AllLines codec (login ∷ create ∷ [])
unfolding AllLines
both-AllLines = (
  record {
    line = codes "t1";
    printed = refl;
    one_line = refl;
    trimmed = refl;
    not_blank = refl;
    read_back = refl;
  },
  (
    record {
      line = codes "t2";
      printed = refl;
      one_line = refl;
      trimmed = refl;
      not_blank = refl;
      read_back = refl;
    },
    tt,
  ),
)

tail-write_all_example :
    tail codec (write_all codec [] (login ∷ create ∷ [])) 1 ≡ take 1 (reverse (login ∷ create ∷ []))
tail-write_all_example = tail-write_all codec (login ∷ create ∷ []) 1 both-AllLines
