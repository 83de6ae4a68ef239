-- ===== src/Derive/Keywords.antt =====
-- The names that Rust takes in the generated code (derive/src/function.rs and derive/src/event.rs).
use ethabi.Base.{Bool, true, false, not, ◌&&◌, ◌||◌, List, [], ◌∷◌, Bytes, text, text_eq}

-- The keywords of Rust, which no variable, field or module is named by.
abbrev keywords : List Bytes
keywords =
    text "_"
    ∷ (text "abstract"
        ∷ (text "as"
            ∷ (text "async"
                ∷ (text "await"
                    ∷ (text "become"
                        ∷ (text "box"
                            ∷ (text "break"
                                ∷ (text "const"
                                    ∷ (text "continue"
                                        ∷ (text "crate"
                                            ∷ (text "do"
                                                ∷ (text "dyn"
                                                    ∷ (text "else"
                                                        ∷ (text "enum"
                                                            ∷ (text "extern"
                                                            ∷ (text "false"
                                                            ∷ (text "final"
                                                            ∷ (text "fn"
                                                            ∷ (text "for"
                                                            ∷ (text "if"
                                                            ∷ (text "impl"
                                                            ∷ (text "in"
                                                            ∷ (text "let"
                                                            ∷ (text "loop"
                                                            ∷ (text "macro"
                                                            ∷ (text "match"
                                                            ∷ (text "mod"
                                                            ∷ (text "move"
                                                            ∷ (text "mut"
                                                            ∷ (text "override"
                                                            ∷ (text "priv"
                                                            ∷ (text "pub"
                                                            ∷ (text "ref"
                                                            ∷ (text "return"
                                                            ∷ (text "self"
                                                            ∷ (text "Self"
                                                            ∷ (text "static"
                                                            ∷ (text "struct"
                                                            ∷ (text "super"
                                                            ∷ (text "trait"
                                                            ∷ (text "true"
                                                            ∷ (text "try"
                                                            ∷ (text "type"
                                                            ∷ (text "typeof"
                                                            ∷ (text "unsafe"
                                                            ∷ (text "unsized"
                                                            ∷ (text "use"
                                                            ∷ (text "virtual"
                                                            ∷ (text "where"
                                                            ∷ (text "while" ∷ (text "yield" ∷ []))))
                                                            ))))))))))))))))))))))))))))))))))))))))
                                                            )))))))

abbrev pub has_name : List Bytes → Bytes → Bool
has_name [] n = false
has_name (m ∷ ms) n = text_eq n m || has_name ms n

unfoldable pub is_keyword : Bytes → Bool
is_keyword n = has_name keywords n

-- Names for the parameters of a function or the fields of a struct: none is taken, and no two are the
-- same.
abbrev pub are_distinct : (Bytes → Bool) → List Bytes → Bool
are_distinct taken [] = true
are_distinct taken (n ∷ ns) = not (taken n || has_name ns n) && are_distinct taken ns
