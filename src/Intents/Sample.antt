-- ===== src/Intents/Sample.antt =====
-- A codec of statuses that has the laws that the theorems on intents assume: a value is written as
-- its numbers, a list after its length.
use mathlib.Core.List.{append_assoc}
use zuno_marketplace_api.Common.{
  ℕ, zero, suc, Text, ◌≡◌, refl, sym, ◌∙◌, ap, List, [], ◌∷◌, ◌++◌, Option, none, some, length,
}
use zuno_marketplace_api.Subscriptions.Model.{Json, json_text, json_other, IntentStatus}
use zuno_marketplace_api.Intents.Repository.{Codec}
use zuno_marketplace_api.Intents.Reading.{IsRoundTrip}
use zuno_marketplace_api.Intents.Ready.{IsTotal}

abbrev pub Parser : Type 0 → Type 0
Parser A = Text → Option (A × Text)

-- A way to write values and a way to read them back, whatever follows.
pub record Format (A : Type 0) : Type 0 where
  pub print : A → Text
  pub parse : Parser A
  pub back : (a : A) (rest : Text) → parse (print a ++ rest) ≡ some (a, rest)

abbrev pub head_number : Parser ℕ
head_number [] = none
head_number (n ∷ l) = some (n, l)

abbrev pub number : Format ℕ
number = record { print = λ n. n ∷ []; parse = head_number; back = λ n rest. refl }

module _ {A B : Type 0} where
  abbrev pub paired : A → Option (B × Text) → Option ((A × B) × Text)
  paired a none = none
  paired a (some (b, rest)) = some ((a, b), rest)

  abbrev pub second : Parser B → Option (A × Text) → Option ((A × B) × Text)
  second q none = none
  second q (some (a, rest)) = paired a (q rest)

  abbrev pub both : Format A → Format B → Format (A × B)
  both f g = record {
    print = λ p. f.print p.0 ++ g.print p.1;
    parse = λ l. second g.parse (f.parse l);
    back = λ p rest.
        ap (λ (l : Text). second g.parse (f.parse l))
          (append_assoc (f.print p.0) (g.print p.1) rest)
        ∙ ap (second g.parse) (f.back p.0 (g.print p.1 ++ rest))
        ∙ ap (paired (p.0)) (g.back p.1 rest);
  }

  abbrev pub mapped : (A → B) → Option (A × Text) → Option (B × Text)
  mapped h none = none
  mapped h (some (a, rest)) = some (h a, rest)

  -- Values as other values, of which they are an image.
  abbrev pub via : (to : B → A) (from : A → B) → ((b : B) → from (to b) ≡ b) → Format A → Format B
  via to from e f = record {
    print = λ b. f.print (to b);
    parse = λ l. mapped from (f.parse l);
    back = λ b rest. ap (mapped from) (f.back (to b) rest) ∙ ap (λ (x : B). some (x, rest)) (e b);
  }

module _ {A : Type 0} (f : Format A) where
  abbrev pub print_all : List A → Text
  print_all [] = []
  print_all (a ∷ l) = f.print a ++ print_all l

  abbrev pub consed : Option ((A × List A) × Text) → Option (List A × Text)
  consed none = none
  consed (some ((a, l), rest)) = some (a ∷ l, rest)

  abbrev pub parse_many : ℕ → Parser (List A)
  parse_many zero l = some ([], l)
  parse_many (suc n) l = consed (second (parse_many n) (f.parse l))

  pub many-back :
      (l : List A) (rest : Text) → parse_many (length l) (print_all l ++ rest) ≡ some (l, rest)
  many-back [] rest = refl
  many-back (a ∷ l) rest =
      ap (λ (t : Text). consed (second (parse_many (length l)) (f.parse t)))
        (append_assoc (f.print a) (print_all l) rest)
      ∙ ap (λ o. consed (second (parse_many (length l)) o)) (f.back a (print_all l ++ rest))
      ∙ ap (λ o. consed (paired a o)) (many-back l rest)

  abbrev pub counted_list : Parser (List A)
  counted_list [] = none
  counted_list (n ∷ l) = parse_many n l

  abbrev pub listed : Format (List A)
  listed = record { print = λ l. length l ∷ print_all l; parse = counted_list; back = many-back }

abbrev pub text : Format Text
text = listed number

abbrev pub json_list : Json → ℕ × Text
json_list (json_text t) = (0, t)
json_list (json_other t) = (1, t)

abbrev pub list_json : ℕ × Text → Json
list_json (zero, t) = json_text t
list_json (suc n, t) = json_other t

pub json_back : (j : Json) → list_json (json_list j) ≡ j
json_back (json_text t) = refl
json_back (json_other t) = refl

abbrev pub option_list : Option ℕ → ℕ × ℕ
option_list none = (0, 0)
option_list (some n) = (1, n)

abbrev pub list_option : ℕ × ℕ → Option ℕ
list_option (zero, n) = none
list_option (suc k, n) = some n

pub option_back : (o : Option ℕ) → list_option (option_list o) ≡ o
option_back none = refl
option_back (some n) = refl

abbrev pub Fields : Type 0
Fields = (Text × Text) × ((Text × Text) × ((Text × List (Text × Json)) × (ℕ × Option ℕ)))

abbrev pub to_fields : IntentStatus → Fields
to_fields i = (
  (i.intent_id, i.status),
  ((i.tx_hash, i.contract_address), ((i.chain_id, i.values), (i.updated_at, i.expires_at))),
)

abbrev pub of_fields : Fields → IntentStatus
of_fields ((a, b), ((c, d), ((e, v), (u, x)))) = record {
  intent_id = a;
  status = b;
  tx_hash = c;
  contract_address = d;
  chain_id = e;
  values = v;
  updated_at = u;
  expires_at = x;
}

abbrev pub statuses : Format IntentStatus
statuses =
    via to_fields of_fields (λ i. refl)
      (both (both text text) (
        both (both text text) (
          both
            (both text (listed (both text (via json_list list_json json_back (both number text)))))
            (both number (via option_list list_option option_back (both number number))))))

abbrev pub first : Option (IntentStatus × Text) → Option IntentStatus
first none = none
first (some (i, rest)) = some i

abbrev pub codec : Codec
codec = record {
  marshal = λ i. some (statuses.print i ++ []);
  unmarshal = λ t. first (statuses.parse t);
}

pub codec-IsRoundTrip : IsRoundTrip codec
codec-IsRoundTrip = record {
  unmarshal-marshal =
      λ i t e. ap (λ (o : Option Text). first (parsed o)) (sym e) ∙ ap first (statuses.back i []);
}
  where
    parsed : Option Text → Option (IntentStatus × Text)
    parsed none = none
    parsed (some t) = statuses.parse t

pub codec-IsTotal : IsTotal codec
codec-IsTotal = record { marshalled = λ i. (statuses.print i ++ [], refl) }
