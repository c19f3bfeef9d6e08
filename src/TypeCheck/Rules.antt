-- ===== src/TypeCheck/Rules.antt =====
-- src/eval.c: the typing rules of the language, apart from the checker. A rule is named after its form.
use sqale.Prelude.{ℕ, ◌≡◌, ◌≢◌, Bool, true, Option, none, some, List, Bytes, codes, c_string, take}
use sqale.Prelude.Int.{ℤ}
use sqale.Ast.{Double, Node, Nodes, list}
use sqale.Types.{Ty, Tys}
use sqale.Types.Equality.{Consistent}
use sqale.Env.{find}
use sqale.Forms.{is_sym, name_ptr, Form, form_of, parse_type_node}
use sqale.TypeCheck.{
  Slot, Context, bind, unit_type, check_fields, variant_names, bind_variants, accepted,
}

-- Two types agree up to Any, where a missing type agrees with none but a missing one.
pub data Agree : Option Ty → Option Ty → Type 0 where
  missing : Agree none none
  both : {a b : Ty} → Consistent a b → Agree (some a) (some b)

-- A variable takes a value of the type: its own type may be missing.
pub data MayHold : Option Ty → Option Ty → Type 0 where
  any : {t : Option Ty} → MayHold none t
  typed : {d : Ty} {t : Option Ty} → Agree (some d) t → MayHold (some d) t

abbrev pub IsColon : Node → Type 0
IsColon n = is_sym n (codes ":") ≡ true

-- The node stands for the type.
abbrev pub Denotes : Node → Ty → Type 0
Denotes n t = parse_type_node n ≡ some t

abbrev pub Names : Node → Bytes → Type 0
Names n x = name_ptr n ≡ some x

-- the parameters of a function, and the environment of its body
pub data Params : Context → Nodes → Tys → Context → Type 0 where
  nil : {Γ : Context} → Params Γ Nodes.nil Tys.nil Γ
  cons :
      {Γ Γ' : Context} {l c : ℕ} {name colon ty : Node} {more ps : Nodes} {x : Bytes} {t : Ty}
      {ts : Tys}
      → Names name x
      → Denotes ty t
      → Params (bind x (some t) Γ) ps ts Γ'
      → Params Γ
          (Nodes.cons (list l c (Nodes.cons name (Nodes.cons colon (Nodes.cons ty more)))) ps)
          (Tys.cons t ts)
          Γ'

-- `Typing Γ n t Γ'`: in the environment Γ the node has type t, and leaves the environment Γ'.
mutual
  pub data Typing : Context → Node → Option Ty → Context → Type 0 where
    int : {Γ : Context} (z : ℤ) (l c : ℕ) → Typing Γ (Node.int z l c) (some Ty.int) Γ
    float : {Γ : Context} (d : Double) (l c : ℕ) → Typing Γ (Node.float d l c) (some Ty.float) Γ
    string : {Γ : Context} (s : Bytes) (l c : ℕ) → Typing Γ (Node.string s l c) (some Ty.str) Γ
    bool : {Γ : Context} (b : Bool) (l c : ℕ) → Typing Γ (Node.bool b l c) (some Ty.bool) Γ
    symbol :
        {Γ : Context} (x : Bytes) (l c : ℕ) {slot : Slot}
        → find Γ (c_string x) ≡ some slot
        → Typing Γ (Node.symbol x l c) slot.type Γ
    unit : {Γ : Context} (l c : ℕ) → Typing Γ (list l c Nodes.nil) unit_type Γ
    form :
        {Γ Γ' : Context} (l c : ℕ) {head : Node} {rest : Nodes} {t : Option Ty}
        → FormTyping Γ (form_of head) head rest t Γ'
        → Typing Γ (list l c (Nodes.cons head rest)) t Γ'

  -- a list with this head, by the form that the head names
  pub data FormTyping : Context → Form → Node → Nodes → Option Ty → Context → Type 0 where
    defmacro : {Γ : Context} {h : Node} {r : Nodes} → FormTyping Γ Form.defmacro h r unit_type Γ
    def :
        {Γ Γ' : Context} {h name colon ty e : Node} {r : Nodes} {x : Bytes} {t : Ty} {u : Option Ty}
        → Names name x
        → Denotes ty t
        → t ≢ Ty.error
        → Typing (bind x (some t) Γ) e u Γ'
        → Agree u (some t)
        → FormTyping Γ Form.def h
            (Nodes.cons name (Nodes.cons colon (Nodes.cons ty (Nodes.cons e r))))
            unit_type
            Γ'
    fn :
        {Γ Γ₁ Γ₂ : Context} {h : Node} {l c : ℕ} {ps body : Nodes} {ts : Tys} {u : Option Ty}
        → Params Γ ps ts Γ₁
        → BodyTyping Γ₁ (list l c ps) body u Γ₂
        → Agree u unit_type
        → FormTyping Γ Form.fn h (Nodes.cons (list l c ps) body) (some (Ty.func ts Ty.unit)) Γ
    fn_returning :
        {Γ Γ₁ Γ₂ : Context} {h colon ty : Node} {l c : ℕ} {ps body : Nodes} {ts : Tys} {ret : Ty}
        {u : Option Ty}
        → IsColon colon
        → Denotes ty ret
        → Params Γ ps ts Γ₁
        → BodyTyping Γ₁ ty body u Γ₂
        → Agree u (some ret)
        → FormTyping Γ Form.fn h
            (Nodes.cons (list l c ps) (Nodes.cons colon (Nodes.cons ty body)))
            (some (Ty.func ts ret))
            Γ
    quote : {Γ : Context} {h : Node} {r : Nodes} → FormTyping Γ Form.quote h r (some Ty.any) Γ
    quasiquote :
        {Γ : Context} {h : Node} {r : Nodes} → FormTyping Γ Form.quasiquote h r (some Ty.any) Γ
    do_ :
        {Γ Γ' : Context} {h : Node} {r : Nodes} {t : Option Ty}
        → SeqTyping Γ unit_type r t Γ'
        → FormTyping Γ Form.do_ h r t Γ'
    import :
        {Γ : Context} {h : Node} {path : Bytes} {l c : ℕ}
        → FormTyping Γ Form.import h (Nodes.cons (Node.string path l c) Nodes.nil) unit_type Γ
    let_ :
        {Γ Γ₁ Γ₂ : Context} {h : Node} {l c : ℕ} {bs body : Nodes} {t : Option Ty}
        → LetTyping Γ bs Γ₁
        → SeqTyping Γ₁ unit_type body t Γ₂
        → FormTyping Γ Form.let_ h (Nodes.cons (list l c bs) body) t Γ
    if_ :
        {Γ Γ₁ Γ₂ Γ₃ : Context} {h test y n : Node} {r : Nodes} {u t e : Option Ty}
        → Typing Γ test u Γ₁
        → Typing Γ₁ y t Γ₂
        → Typing Γ₂ n e Γ₃
        → Agree t e
        → FormTyping Γ Form.if_ h (Nodes.cons test (Nodes.cons y (Nodes.cons n r))) t Γ₃
    while :
        {Γ Γ₁ Γ₂ : Context} {h test : Node} {body : Nodes} {t : Option Ty}
        → Typing Γ test (some Ty.bool) Γ₁
        → SeqTyping Γ₁ unit_type body t Γ₂
        → FormTyping Γ Form.while h (Nodes.cons test body) unit_type Γ₂
    set :
        {Γ Γ' : Context} {h e : Node} {x : Bytes} {l c : ℕ} {slot : Slot} {u : Option Ty}
        → find Γ (c_string (take 255 x)) ≡ some slot
        → Typing Γ e u Γ'
        → MayHold slot.type u
        → FormTyping Γ Form.set h
            (Nodes.cons (Node.symbol x l c) (Nodes.cons e Nodes.nil))
            unit_type
            Γ'
    vec :
        {Γ Γ' : Context} {h : Node} {r : Nodes} {t : Option Ty}
        → SeqTyping Γ unit_type r t Γ'
        → FormTyping Γ Form.vec h r (some (Ty.vec Ty.any)) Γ'
    struct_new :
        {Γ Γ' : Context} {h : Node} {r : Nodes} {t : Option Ty}
        → SeqTyping Γ unit_type r t Γ'
        → FormTyping Γ Form.struct_new h r (some Ty.any) Γ'
    defstruct :
        {Γ : Context} {h : Node} {x : Bytes} {l c l' c' : ℕ} {fields r : Nodes} {ts : Tys}
        {xs : List Bytes}
        → check_fields fields ≡ accepted (ts, xs)
        → FormTyping Γ Form.defstruct h
            (Nodes.cons (Node.symbol x l c) (Nodes.cons (list l' c' fields) r))
            unit_type
            (bind (c_string x) (some (Ty.struct (c_string x) ts xs)) Γ)
    defenum :
        {Γ : Context} {h : Node} {x : Bytes} {l c l' c' : ℕ} {variants r : Nodes} {xs : List Bytes}
        → variant_names variants ≡ accepted xs
        → FormTyping Γ Form.defenum h
            (Nodes.cons (Node.symbol x l c) (Nodes.cons (list l' c' variants) r))
            unit_type
            (bind_variants xs (bind (c_string x) (some (Ty.enum (c_string x) xs)) Γ))
    call :
        {Γ Γ₁ Γ₂ : Context} {h : Node} {args : Nodes} {ts : Tys} {ret : Ty}
        → Typing Γ h (some (Ty.func ts ret)) Γ₁
        → ArgsTyping Γ₁ ts args Γ₂
        → FormTyping Γ Form.call h args (some ret) Γ₂

  -- Items one after the other: the type of the last, or `t` when there is none.
  pub data SeqTyping : Context → Option Ty → Nodes → Option Ty → Context → Type 0 where
    done : {Γ : Context} {t : Option Ty} → SeqTyping Γ t Nodes.nil t Γ
    andthen :
        {Γ Γ₁ Γ₂ : Context} {n : Node} {ns : Nodes} {t u v : Option Ty}
        → Typing Γ n u Γ₁
        → SeqTyping Γ₁ u ns v Γ₂
        → SeqTyping Γ t (Nodes.cons n ns) v Γ₂

  -- The body of a function. An empty one stands for the item before it.
  pub data BodyTyping : Context → Node → Nodes → Option Ty → Context → Type 0 where
    items :
        {Γ Γ' : Context} {last n : Node} {ns : Nodes} {t : Option Ty}
        → SeqTyping Γ unit_type (Nodes.cons n ns) t Γ'
        → BodyTyping Γ last (Nodes.cons n ns) t Γ'
    empty :
        {Γ Γ' : Context} {last : Node} {t : Option Ty}
        → Typing Γ last t Γ'
        → BodyTyping Γ last Nodes.nil t Γ'

  -- the bindings of a `let`, each seen by the next
  pub data LetTyping : Context → Nodes → Context → Type 0 where
    no_bindings : {Γ : Context} → LetTyping Γ Nodes.nil Γ
    plain :
        {Γ Γ₁ Γ₂ : Context} {l c : ℕ} {name e : Node} {r bs : Nodes} {x : Bytes} {u : Option Ty}
        → Names name x
        → Typing Γ e u Γ₁
        → LetTyping (bind x u Γ₁) bs Γ₂
        → LetTyping Γ (Nodes.cons (list l c (Nodes.cons name (Nodes.cons e r))) bs) Γ₂
    declared :
        {Γ Γ₁ Γ₂ : Context} {l c : ℕ} {name colon ty e : Node} {r bs : Nodes} {x : Bytes} {t : Ty}
        {u : Option Ty}
        → Names name x
        → IsColon colon
        → Denotes ty t
        → Typing Γ e u Γ₁
        → Agree u (some t)
        → LetTyping (bind x (some t) Γ₁) bs Γ₂
        → LetTyping Γ
            (Nodes.cons
              (list l c (Nodes.cons name (Nodes.cons colon (Nodes.cons ty (Nodes.cons e r)))))
              bs)
            Γ₂
    apart :
        {Γ Γ₁ Γ₂ : Context} {l c : ℕ} {name colon ty e : Node} {bs : Nodes} {x : Bytes} {t : Ty}
        {u : Option Ty}
        → Names name x
        → IsColon colon
        → Denotes ty t
        → Typing Γ e u Γ₁
        → Agree u (some t)
        → LetTyping (bind x (some t) Γ₁) bs Γ₂
        → LetTyping Γ
            (Nodes.cons
              (list l c (Nodes.cons name (Nodes.cons colon (Nodes.cons ty Nodes.nil))))
              (Nodes.cons e bs))
            Γ₂

  -- as many arguments as parameters, each of its type
  pub data ArgsTyping : Context → Tys → Nodes → Context → Type 0 where
    no_args : {Γ : Context} → ArgsTyping Γ Tys.nil Nodes.nil Γ
    arg :
        {Γ Γ₁ Γ₂ : Context} {t : Ty} {ts : Tys} {n : Node} {ns : Nodes} {u : Option Ty}
        → Typing Γ n u Γ₁
        → Agree (some t) u
        → ArgsTyping Γ₁ ts ns Γ₂
        → ArgsTyping Γ (Tys.cons t ts) (Nodes.cons n ns) Γ₂
