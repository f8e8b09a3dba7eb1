-- ===== src/Keyboard/Tables.antt =====
-- The tables of src/keyboard.c.
use ocean_os.Base.{ℕ, List, [], ◌∷◌, ◌++◌, replicate}

-- The handlers that `key_tab` names, each with its C name.
pub data Action : Type 0 where
  none_key do_self_key ctrl_key lshift_key minus_key rshift_key alt_key caps_key : Action
  func_key num_key screen_scroll_key cursor_key unctrl_key unlshift_key unrshift_key : Action
  unalt_key uncaps_key : Action

abbrev pub shift_map : List ℕ
shift_map =
    0 ∷ 27 ∷ 33 ∷ 64 ∷ 35 ∷ 36 ∷ 37 ∷ 94 ∷ 38 ∷ 42 ∷ 40 ∷ 41 ∷ 95 ∷ 43 ∷ 127 ∷ 9 ∷ 81 ∷ 87 ∷ 69 ∷ 82
    ∷ 84 ∷ 89 ∷ 85 ∷ 73 ∷ 79 ∷ 80 ∷ 123 ∷ 125 ∷ 10 ∷ 0 ∷ 65 ∷ 83 ∷ 68 ∷ 70 ∷ 71 ∷ 72 ∷ 74 ∷ 75 ∷ 76
    ∷ 58 ∷ 34 ∷ 126 ∷ 0 ∷ 124 ∷ 90 ∷ 88 ∷ 67 ∷ 86 ∷ 66 ∷ 78 ∷ 77 ∷ 60 ∷ 62 ∷ 63 ∷ 0 ∷ 42 ∷ 0 ∷ 0
    ∷ 32 ∷ 0 ∷ 0 ∷ 0 ∷ 0 ∷ 0 ∷ 0 ∷ 0 ∷ 0 ∷ 0 ∷ 0 ∷ 0 ∷ 0 ∷ 0 ∷ 0 ∷ 0 ∷ 45 ∷ 0 ∷ 0 ∷ 0 ∷ 43 ∷ 0 ∷ 0
    ∷ 0 ∷ 0 ∷ 0 ∷ 0 ∷ 0 ∷ 0 ∷ 62 ∷ 0 ∷ 0 ∷ 0 ∷ 0 ∷ 0 ∷ 0 ∷ 0 ∷ 0 ∷ 0 ∷ 0 ∷ []

abbrev pub key_map : List ℕ
key_map =
    0 ∷ 27 ∷ 49 ∷ 50 ∷ 51 ∷ 52 ∷ 53 ∷ 54 ∷ 55 ∷ 56 ∷ 57 ∷ 48 ∷ 45 ∷ 61 ∷ 127 ∷ 9 ∷ 113 ∷ 119 ∷ 101
    ∷ 114 ∷ 116 ∷ 121 ∷ 117 ∷ 105 ∷ 111 ∷ 112 ∷ 91 ∷ 93 ∷ 10 ∷ 0 ∷ 97 ∷ 115 ∷ 100 ∷ 102 ∷ 103 ∷ 104
    ∷ 106 ∷ 107 ∷ 108 ∷ 59 ∷ 39 ∷ 96 ∷ 0 ∷ 92 ∷ 122 ∷ 120 ∷ 99 ∷ 118 ∷ 98 ∷ 110 ∷ 109 ∷ 44 ∷ 46 ∷ 47
    ∷ 0 ∷ 42 ∷ 0 ∷ 32 ∷ 16 ∷ 1 ∷ 0 ∷ 45 ∷ 0 ∷ 0 ∷ 0 ∷ 43 ∷ 0 ∷ 0 ∷ 0 ∷ 0 ∷ 0 ∷ 0 ∷ 0 ∷ 60 ∷ 45 ∷ 1
    ∷ 0 ∷ 0 ∷ 43 ∷ []

abbrev pub alt_map : List ℕ
alt_map =
    0 ∷ 0 ∷ 0 ∷ 64 ∷ 0 ∷ 36 ∷ 0 ∷ 0 ∷ 123 ∷ 91 ∷ 93 ∷ 125 ∷ 92 ∷ 0 ∷ 0 ∷ 0 ∷ 0 ∷ 0 ∷ 0 ∷ 0 ∷ 0 ∷ 0
    ∷ 0 ∷ 0 ∷ 0 ∷ 0 ∷ 0 ∷ 126 ∷ 10 ∷ 0 ∷ 0 ∷ 0 ∷ 0 ∷ 0 ∷ 0 ∷ 0 ∷ 0 ∷ 0 ∷ 0 ∷ 0 ∷ 0 ∷ 0 ∷ 0 ∷ 0 ∷ 0
    ∷ 0 ∷ 0 ∷ 0 ∷ 0 ∷ 0 ∷ 0 ∷ 0 ∷ 0 ∷ 0 ∷ 0 ∷ 0 ∷ 0 ∷ 0 ∷ 16 ∷ 1 ∷ 0 ∷ 0 ∷ 0 ∷ 0 ∷ 0 ∷ 0 ∷ 0 ∷ 0 ∷ 0
    ∷ 0 ∷ 0 ∷ 0 ∷ 0 ∷ 124 ∷ 0 ∷ 0 ∷ 0 ∷ 0 ∷ 0 ∷ 0 ∷ 0 ∷ 0 ∷ 0 ∷ 0 ∷ []

-- The number pad: digits, and the letters of the cursor keys.
abbrev pub number_tab : List ℕ
number_tab = 55 ∷ 56 ∷ 57 ∷ 32 ∷ 52 ∷ 53 ∷ 54 ∷ 32 ∷ 49 ∷ 50 ∷ 51 ∷ 48 ∷ 46 ∷ []

abbrev pub cursos_tab : List ℕ
cursos_tab = 72 ∷ 65 ∷ 53 ∷ 32 ∷ 68 ∷ 71 ∷ 67 ∷ 32 ∷ 89 ∷ 66 ∷ 54 ∷ 50 ∷ 51 ∷ []

-- The table in runs of equal entries, by scan code.
abbrev pub key_tab : List Action
key_tab =
    replicate 1 none_key
    ++ (replicate 28 do_self_key
        ++ (replicate 1 ctrl_key
            ++ (replicate 12 do_self_key
                ++ (replicate 1 lshift_key
                    ++ (replicate 10 do_self_key
                        ++ (replicate 1 minus_key
                            ++ (replicate 1 rshift_key
                                ++ (replicate 1 do_self_key
                                    ++ (replicate 1 alt_key
                                        ++ (replicate 1 do_self_key
                                            ++ (replicate 1 caps_key
                                                ++ (replicate 10 func_key
                                                    ++ (replicate 1 num_key
                                                        ++ (replicate 1 screen_scroll_key
                                                            ++ (replicate 3 cursor_key
                                                            ++ (replicate 1 do_self_key
                                                            ++ (replicate 3 cursor_key
                                                            ++ (replicate 1 do_self_key
                                                            ++ (replicate 5 cursor_key
                                                            ++ (replicate 2 none_key
                                                            ++ (replicate 1 do_self_key
                                                            ++ (replicate 2 func_key
                                                            ++ (replicate 68 none_key
                                                            ++ (replicate 1 unctrl_key
                                                            ++ (replicate 12 none_key
                                                            ++ (replicate 1 unlshift_key
                                                            ++ (replicate 11 none_key
                                                            ++ (replicate 1 unrshift_key
                                                            ++ (replicate 1 none_key
                                                            ++ (replicate 1 unalt_key
                                                            ++ (replicate 1 none_key
                                                            ++ (replicate 1 uncaps_key
                                                            ++ (replicate 69
                                                            none_key)))))))))))))))))))))))))))))))))
